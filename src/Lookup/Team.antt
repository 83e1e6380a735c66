-- ===== src/Lookup/Team.antt =====
-- The threads that `main` of lab3/multi-lookup.c starts.
use mathlib.Core.Path.{subst}
use model_lib.Prelude.{
  ℕ, zero, suc, ◌+◌, ◌*◌, ◌%◌, ◌≤◌, ◌≡◌, refl, sym, ◌∙◌, ap, ap₂, Bool, if◌then◌else◌, true, false,
  List, [], ◌∷◌, ◌++◌, map, length, ltb, arith,
}
use model_lib.Prelude.Int.{ℤ, pos, negsuc, pos_part, ltb_ℤ}
use model_lib.Queue.{Queue, queue_init}
use model_lib.Lookup.{Name}
use model_lib.Lookup.Setup.{
  SetupError, no_queue, few_arguments, output_not_opened, no_mutex, no_condition, no_core_count,
  Begun, ok, fails, undefined, and_then, Calls, Team, input_files, output_file, all_zero, memories,
  start_thread, start_resolvers, start_requesters, start_threads, set_up,
}

-- The cores from one assignment on.
unfoldable pub cores_from : ℕ → ℕ → ℕ → List ℕ
cores_from cores core zero = []
cores_from cores core (suc n) = (core % cores) ∷ cores_from cores (core + 1) n

unfoldable pub with_cores : ℕ → ℕ → List Name → List (Name × ℕ)
with_cores cores core [] = []
with_cores cores core (file ∷ files) = (file, core % cores) ∷ with_cores cores (core + 1) files

-- The value of a part that came to one.
and_then-ok :
    {A B : Type 0} (x : Begun A) (f : A → Begun B) (b : B)
    → and_then x f ≡ ok b
    → (a : A) × (x ≡ ok a) × (f a ≡ ok b)
unfolding and_then
and_then-ok (ok a) f b e = (a, refl, e)
and_then-ok (fails err) f b e = absurd cc
and_then-ok undefined f b e = absurd cc

ok-injective : {A : Type 0} {a b : A} → ok a ≡ ok b → a ≡ b
ok-injective e = cc

-- Tests that a part has passed.
unless-ok :
    {A : Type 0} (b : Bool) (err : SetupError) (x : Begun A) (a : A)
    → (if b then fails err else x) ≡ ok a
    → (b ≡ false) × (x ≡ ok a)
unless-ok true err x a e = absurd cc
unless-ok false err x a e = (refl, e)

when-ok :
    {A : Type 0} (b : Bool) (err : SetupError) (x : Begun A) (a : A)
    → (if b then x else fails err) ≡ ok a
    → (b ≡ true) × (x ≡ ok a)
when-ok true err x a e = (refl, e)
when-ok false err x a e = absurd cc

-- The arguments are the input files and, last, the output file.
input_files-output :
    (argv : List Name) → 1 ≤ length argv → argv ≡ input_files argv ++ (output_file argv ∷ [])
unfolding input_files output_file
input_files-output [] le = absurd (omega arith)
input_files-output (a ∷ []) le = refl
input_files-output (a ∷ b ∷ rest) le = ap (λ l. a ∷ l) (input_files-output (b ∷ rest) (omega arith))

with_cores-files :
    (cores core : ℕ) (files : List Name) → map (λ x. x.0) (with_cores cores core files) ≡ files
unfolding with_cores
with_cores-files cores core [] = refl
with_cores-files cores core (file ∷ files) =
    ap (λ l. file ∷ l) (with_cores-files cores (core + 1) files)

with_cores-cores :
    (cores core : ℕ) (files : List Name)
    → map (λ x. x.1) (with_cores cores core files)
      ≡ cores_from cores core (length (with_cores cores core files))
unfolding with_cores cores_from
with_cores-cores cores core [] = refl
with_cores-cores cores core (file ∷ files) =
    ap (λ l. (core % cores) ∷ l) (with_cores-cores cores (core + 1) files)

module _ {W : Type 0} (calls : Calls W) where
  -- From one world to another `n` threads are created: memory is given for each, and `pthread_create`
  -- returns 0.
  pub data Created : ℕ → W → W → Type 0 where
    no_more : {w : W} → Created 0 w w
    one_more :
        {n : ℕ} {w v : W}
        → (calls.malloc w).0 ≡ true
        → (calls.create (calls.malloc w).1).0 ≡ pos 0
        → Created n (calls.create (calls.malloc w).1).1 v
        → Created (suc n) w v

  -- What `main` has started where it is left with a team in the world `w`.
  pub record Started (argv : List Name) (team : Team) (w : W) : Type 0 where
    pub files : argv ≡ map (λ x. x.0) team.requesters ++ (team.output_file ∷ [])
    pub resolvers : team.resolvers ≡ cores_from team.cores 0 (4 * team.cores)
    pub requesters :
        map (λ x. x.1) team.requesters
        ≡ cores_from team.cores (4 * team.cores) (length team.requesters)
    pub counting : W
    pub counted : (calls.processors counting).0 ≡ pos team.cores
    pub given : W
    pub arrays : memories calls 3 (calls.processors counting).1 ≡ ok given
    pub between : W
    pub resolving : Created (length team.resolvers) given between
    pub requesting : Created (length team.requesters) between w

module _ {W : Type 0} (calls : Calls W) where
  thread-core :
      (cores core : ℕ) (w : W) (r : ℕ × W)
      → start_thread calls cores core w ≡ ok r
      → r.0 ≡ core % cores
  unfolding start_thread
  thread-core cores core w r e = ground arith

  thread_made :
      (cores core : ℕ) (w : W) (r : ℕ × W)
      → start_thread calls cores core w ≡ ok r
      → ((calls.malloc w).0 ≡ true)
        × ((calls.create (calls.malloc w).1).0 ≡ pos 0)
        × (r.1 ≡ (calls.create (calls.malloc w).1).1)
  unfolding start_thread
  thread_made cores core w r e = ground arith

  resolvers-Created :
      (cores n core : ℕ) (w : W) (r : List ℕ × W)
      → start_resolvers calls cores n core w ≡ ok r
      → Created calls (length r.0) w r.1
  unfolding start_resolvers
  resolvers-Created cores zero core w r e =
      subst (λ (y : List ℕ × W). Created calls (length y.0) w y.1) (ok-injective e) no_more
  resolvers-Created cores (suc n) core w r e =
      let (t, started, f) = and_then-ok (start_thread calls cores core w) _ r e in
      let (rest, others, g) = and_then-ok (start_resolvers calls cores n (core + 1) t.1) _ r f in
      let (given, made, here) = thread_made cores core w t started in
      subst (λ (y : List ℕ × W). Created calls (length y.0) w y.1) (ok-injective g)
        (one_more given made (
          subst (λ v. Created calls (length rest.0) v rest.1) here
            (resolvers-Created cores n (core + 1) t.1 rest others)))

  requesters-Created :
      (cores core : ℕ) (files : List Name) (w : W) (r : List (Name × ℕ) × W)
      → start_requesters calls cores files core w ≡ ok r
      → Created calls (length r.0) w r.1
  unfolding start_requesters
  requesters-Created cores core [] w r e =
      subst (λ (y : List (Name × ℕ) × W). Created calls (length y.0) w y.1) (ok-injective e) no_more
  requesters-Created cores core (file ∷ files) w r e =
      let (t, started, f) = and_then-ok (start_thread calls cores core w) _ r e in
      let (rest, others, g) =
        and_then-ok (start_requesters calls cores files (core + 1) t.1) _ r f in
      let (given, made, here) = thread_made cores core w t started in
      subst (λ (y : List (Name × ℕ) × W). Created calls (length y.0) w y.1) (ok-injective g)
        (one_more given made (
          subst (λ v. Created calls (length rest.0) v rest.1) here
            (requesters-Created cores (core + 1) files t.1 rest others)))

  resolvers-cores :
      (cores n core : ℕ) (w : W) (r : List ℕ × W)
      → start_resolvers calls cores n core w ≡ ok r
      → r.0 ≡ cores_from cores core n
  unfolding start_resolvers cores_from
  resolvers-cores cores zero core w r e = ground arith
  resolvers-cores cores (suc n) core w r e =
      let (t, started, f) = and_then-ok (start_thread calls cores core w) _ r e in
      let (rest, others, g) = and_then-ok (start_resolvers calls cores n (core + 1) t.1) _ r f in
      sym (ap (λ x. x.0) (ok-injective g))
      ∙ ap₂ ◌∷◌ (thread-core cores core w t started)
          (resolvers-cores cores n (core + 1) t.1 rest others)

  requesters-cores :
      (cores core : ℕ) (files : List Name) (w : W) (r : List (Name × ℕ) × W)
      → start_requesters calls cores files core w ≡ ok r
      → r.0 ≡ with_cores cores core files
  unfolding start_requesters with_cores
  requesters-cores cores core [] w r e = sym (ap (λ x. x.0) (ok-injective e))
  requesters-cores cores core (file ∷ files) w r e =
      let (t, started, f) = and_then-ok (start_thread calls cores core w) _ r e in
      let (rest, others, g) =
        and_then-ok (start_requesters calls cores files (core + 1) t.1) _ r f in
      sym (ap (λ x. x.0) (ok-injective g))
      ∙ ap₂ ◌∷◌ (ap (λ k. (file, k)) (thread-core cores core w t started))
          (requesters-cores cores (core + 1) files t.1 rest others)

  threads-Started :
      (q : Queue) (argv : List Name) (cores : ℕ) (w v : W) (r : Team × W)
      → 1 ≤ length argv
      → (calls.processors v).0 ≡ pos cores
      → (calls.processors v).1 ≡ w
      → start_threads calls q argv cores w ≡ ok r
      → Started calls argv r.0 r.1 × (r.0.queue ≡ q)
  unfolding start_threads
  threads-Started q argv cores w v r some_name counted same e =
      let (w1, given, f) = and_then-ok (memories calls 3 w) _ r e in
      let (rs, resolving, g) = and_then-ok (start_resolvers calls cores (4 * cores) 0 w1) _ r f in
      let (qs, requesting, h) =
        and_then-ok (start_requesters calls cores (input_files argv) (4 * cores) rs.1) _ r g in
      let those = requesters-cores cores (4 * cores) (input_files argv) rs.1 qs requesting in
      subst (λ (x : Team × W). Started calls argv x.0 x.1 × (x.0.queue ≡ q)) (ok-injective h)
        (
          record {
            files =
                input_files-output argv some_name
                ∙ ap (λ l. l ++ (output_file argv ∷ []))
                    (sym (with_cores-files cores (4 * cores) (input_files argv))
                      ∙ ap (map (λ x. x.0)) (sym those));
            resolvers = resolvers-cores cores (4 * cores) 0 w1 rs resolving;
            requesters =
                ap (map (λ x. x.1)) those
                ∙ with_cores-cores cores (4 * cores) (input_files argv)
                ∙ ap (λ l. cores_from cores (4 * cores) (length l)) (sym those);
            counting = v;
            counted = counted;
            given = w1;
            arrays = ap (memories calls 3) same ∙ given;
            between = rs.1;
            resolving = resolvers-Created cores (4 * cores) 0 w1 rs resolving;
            requesting = requesters-Created cores (4 * cores) (input_files argv) rs.1 qs requesting;
          },
          refl,
        )

  not_negative : (z : ℤ) → ltb_ℤ z (pos 0) ≡ false → z ≡ pos (pos_part z)
  not_negative z h = ground arith

  -- Whatever the calls give, where `main` comes to its waits: there are two arguments at least; the
  -- queue is the one that `queue_init` has made, with no failure; the arguments are the files of the
  -- requesters and, last, the output file; for the `c` cores that `sysconf` gave there are `4 * c`
  -- resolvers; the threads, resolvers first, are put on the cores 0 to `c - 1` in turn; and behind
  -- `sysconf` the calls were those for three arrays and, for each thread, its memory and a
  -- `pthread_create` that returned 0.
  pub set_up_lem :
      (before : Queue) (argv : List Name) (w : W) (r : Team × W)
      → set_up calls before argv w ≡ ok r
      → (2 ≤ length argv)
        × (ltb_ℤ (queue_init calls.queue_malloc before (negsuc 0)).0 (pos 0) ≡ false)
        × (r.0.queue ≡ (queue_init calls.queue_malloc before (negsuc 0)).1)
        × Started calls argv r.0 r.1
  unfolding set_up
  set_up_lem before argv w r e =
      let (made, e1) =
        unless-ok (ltb_ℤ (queue_init calls.queue_malloc before (negsuc 0)).0 (pos 0)) no_queue _ r
          e in
      let (enough, e2) = unless-ok (ltb (length argv) 2) few_arguments _ r e1 in
      let (opens, e3) = when-ok (calls.fopen w (output_file argv)).0 output_not_opened _ r e2 in
      let (w2, locks, e4) =
        and_then-ok
          (all_zero calls calls.mutex_init 4 no_mutex (calls.fopen w (output_file argv)).1) _ r
          e3 in
      let (w3, conditions, e5) =
        and_then-ok (all_zero calls calls.cond_init 2 no_condition w2) _ r e4 in
      let (counted, e6) = unless-ok (ltb_ℤ (calls.processors w3).0 (pos 0)) no_core_count _ r e5 in
      let (started, same_queue) =
        threads-Started _ argv _ _ w3 r (ground (arith, enough))
          (not_negative (calls.processors w3).0 counted) refl e6 in
      (ground (arith, enough), made, same_queue, started)
