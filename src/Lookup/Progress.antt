-- ===== src/Lookup/Progress.antt =====
-- How far a requester is through its file.
use model_lib.Prelude.{
  ℕ, ◌+◌, ◌≡◌, ◌≢◌, refl, sym, ◌∙◌, ap, Bool, true, false, Option, List, [], arith, length,
}
use model_lib.Lookup.{Name, Line, Shared}
use model_lib.Lookup.Family.{put-all}
use model_lib.Lookup.Requester.{
  Requester, ReqPc, opening, reading, locking, testing, pushing, counting, numbering, releasing,
  storing, sizing, left_early, draining, finished, wild, ReqMove, Detect, open_ok, fails_early,
  scan, scan_wild, scan_end, lock, full, room, push, push_wild, count, number, store, grow,
  grow_oom, release, drained, detect, take_off, names,
}
use model_lib.Lookup.System.{
  System, Step, main_step, requester_step, helper_step, resolver_step, start, Reach, begin, next,
}

-- 1 while a name is read and not pushed; only at `wild` this is not known.
abbrev pub unpushed : ReqPc → ℕ
unpushed locking = 1
unpushed testing = 1
unpushed pushing = 1
unpushed _ = 0

-- The file has been read to its end.
abbrev pub at_end : ReqPc → Bool
at_end draining = true
at_end finished = true
at_end left_early = true
at_end _ = false

pub record Progress (file : Option (List Name)) (r : Requester) : Type 0 where
  pub same_file : r.file ≡ file
  pub given : r.reads + length r.remaining ≡ length (names file)
  pub unopened : r.pc ≡ opening → r.remaining ≡ names file
  pub balanced : r.pc ≢ wild → r.reads ≡ r.pushes + unpushed r.pc
  pub exhausted : at_end r.pc ≡ true → r.remaining ≡ []

module _ (n i : ℕ) (sh : Shared) (file : Option (List Name)) (r : Requester)
    (v : Progress file r) where
  -- A step that reads and pushes nothing.
  Progress-quiet :
      (p : ReqPc) (r' : Requester)
      → r.pc ≡ p
      → r'.file ≡ r.file
      → r'.remaining ≡ r.remaining
      → r'.reads ≡ r.reads
      → r'.pushes ≡ r.pushes
      → p ≢ wild
      → unpushed r'.pc ≡ unpushed p
      → r'.pc ≢ opening
      → (at_end r'.pc ≡ true → r.remaining ≡ [])
      → Progress file r'
  Progress-quiet p r' e f rest reads pushes tame u opened end = record {
    same_file = f ∙ v.same_file;
    given = rw (reads, rest) v.given;
    unopened = λ h. absurd (opened h);
    balanced = λ h. rw (reads, pushes, u, ← e) (v.balanced (λ w. tame (sym e ∙ w)));
    exhausted = λ h. rest ∙ end h;
  }

  Progress-wild : Progress file (record r { pc = wild })
  Progress-wild = record {
    same_file = v.same_file;
    given = v.given;
    unopened = λ h. cc;
    balanced = λ tame. absurd (tame refl);
    exhausted = λ h. cc;
  }

  so_far : (p : ReqPc) → r.pc ≡ p → p ≢ wild → r.reads ≡ r.pushes + unpushed p
  so_far p e tame = v.balanced (λ w. tame (sym e ∙ w)) ∙ ap (λ x. r.pushes + unpushed x) e

  ReqMove-Progress : (sh' : Shared) (r' : Requester) → ReqMove n i sh r sh' r' → Progress file r'
  ReqMove-Progress _ r' (open_ok ns e f) =
      Progress-quiet opening r' e refl refl refl refl (λ h. cc) refl (λ h. cc) (λ h. cc)
  ReqMove-Progress _ r' (fails_early e f) =
      Progress-quiet opening r' e refl refl refl refl (λ h. cc) refl (λ h. cc)
        (λ h. v.unopened e ∙ ap names (sym v.same_file ∙ f))
  ReqMove-Progress _ r' (scan k name rest e f h) = record {
    same_file = v.same_file;
    given = omega (arith, v.given, ap length h);
    unopened = λ h. cc;
    balanced = λ w. omega (arith, so_far reading e (λ x. cc));
    exhausted = λ h. cc;
  }
  ReqMove-Progress _ r' (scan_wild k name rest e f h) = Progress-wild
  ReqMove-Progress _ r' (scan_end e f) =
      Progress-quiet reading r' e refl refl refl refl (λ h. cc) refl (λ h. cc) (λ h. f)
  ReqMove-Progress _ r' (lock e f) =
      Progress-quiet locking r' e refl refl refl refl (λ h. cc) refl (λ h. cc) (λ h. cc)
  ReqMove-Progress _ r' (full e f) =
      Progress-quiet testing r' e refl refl refl refl (λ h. cc) refl (λ h. cc) (λ h. cc)
  ReqMove-Progress _ r' (room e f) =
      Progress-quiet testing r' e refl refl refl refl (λ h. cc) refl (λ h. cc) (λ h. cc)
  ReqMove-Progress _ r' (push k e f) = record {
    same_file = v.same_file;
    given = v.given;
    unopened = λ h. cc;
    balanced = λ w. omega (arith, so_far pushing e (λ x. cc));
    exhausted = λ h. cc;
  }
  ReqMove-Progress _ r' (push_wild k e f) = Progress-wild
  ReqMove-Progress _ r' (count e) =
      Progress-quiet counting r' e refl refl refl refl (λ h. cc) refl (λ h. cc) (λ h. cc)
  ReqMove-Progress _ r' (number e) =
      Progress-quiet numbering r' e refl refl refl refl (λ h. cc) refl (λ h. cc) (λ h. cc)
  ReqMove-Progress _ r' (store e) =
      Progress-quiet storing r' e refl refl refl refl (λ h. cc) refl (λ h. cc) (λ h. cc)
  ReqMove-Progress _ r' (grow e) =
      Progress-quiet sizing r' e refl refl refl refl (λ h. cc) refl (λ h. cc) (λ h. cc)
  ReqMove-Progress _ r' (grow_oom e f g) =
      Progress-quiet sizing r' e refl refl refl refl (λ h. cc) refl (λ h. cc) (λ h. cc)
  ReqMove-Progress _ r' (release e) =
      Progress-quiet releasing r' e refl refl refl refl (λ h. cc) refl (λ h. cc) (λ h. cc)
  ReqMove-Progress _ r' (drained e f g) =
      Progress-quiet draining r' e refl refl refl refl (λ h. cc) refl (λ h. cc)
        (λ h. v.exhausted (ap at_end e))

Detect-Progress :
    (file : Option (List Name)) (output : List Line) (r r' : Requester)
    → Detect output r r'
    → Progress file r
    → Progress file r'
Detect-Progress file output r _ (detect k at l e b f g h j o) v = record {
  same_file = v.same_file;
  given = v.given;
  unopened = v.unopened;
  balanced = v.balanced;
  exhausted = v.exhausted;
}
Detect-Progress file output r _ (take_off k left e) v = record {
  same_file = v.same_file;
  given = v.given;
  unopened = v.unopened;
  balanced = v.balanced;
  exhausted = v.exhausted;
}

module _ (ip_of : Name → Name) (n m : ℕ) (files : ℕ → Option (List Name)) where
  abbrev AllProgress : System → Type 0
  AllProgress s = (i : ℕ) → Progress (files i) (s.requesters i)

  Step-Progress : (s t : System) → Step ip_of n m s t → AllProgress s → AllProgress t
  Step-Progress s _ (main_step mv) v = v
  Step-Progress s _ (requester_step i {sh} {r} lt mv) v =
      put-all i r s.requesters (λ k x. Progress (files k) x)
        (ReqMove-Progress n i s.shared (files i) (s.requesters i) (v i) sh r mv) (λ k ne. v k)
  Step-Progress s _ (helper_step i {r} lt mv) v =
      put-all i r s.requesters (λ k x. Progress (files k) x)
        (Detect-Progress (files i) s.shared.output (s.requesters i) r mv (v i)) (λ k ne. v k)
  Step-Progress s _ (resolver_step j lt mv) v = v

  start-Progress : AllProgress (start files)
  start-Progress i = record {
    same_file = refl;
    given = omega arith;
    unopened = λ h. refl;
    balanced = λ h. omega arith;
    exhausted = λ h. cc;
  }

  -- In every reachable state.
  pub Reach-Progress :
      {s : System} → Reach ip_of n m files s → (i : ℕ) → Progress (files i) (s.requesters i)
  Reach-Progress begin = start-Progress
  Reach-Progress (next {s} {t} r st) = Step-Progress s t st (Reach-Progress r)
