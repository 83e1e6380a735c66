-- ===== src/Lookup/Fair.antt =====
-- What one step of a thread does to the ownership of `qlock`.
use model_lib.Prelude.{ℕ, ◌≡◌, ◌≢◌, refl, sym, ◌∙◌, Bool, true, false, Option, none, some, List, ap}
use model_lib.Prelude.{◌+◌, ◌++◌, [], ◌∷◌}
use model_lib.Prelude.Int.{pos, ◌+ℤ◌, ◌-ℤ◌}
use model_lib.Queue.{queue_push}
use model_lib.Lookup.System
use model_lib.Lookup.{address, Line, Name, Thread, main_thread, requester, resolver, Shared}
use model_lib.Lookup.Family.{put}
use model_lib.Lookup.Requester.{
  Requester, ReqPc, opening, reading, locking, testing, pushing, counting, numbering, storing,
  sizing, left_early, releasing, draining, finished, aborted, wild, ReqMove, Detect, open_ok,
  fails_early, scan, scan_wild, scan_end, lock, full, room, push, push_wild, count, number, store,
  grow, grow_oom, release, drained, detect, take_off,
}
use model_lib.Lookup.Resolver
use model_lib.Lookup.Resolver.{
  ResPc, top, probing, sleeping, deciding, resolving, writing, relocking, settling, exited, crashed,
  stale, ResMove,
}
use model_lib.Lookup.System.{
  MainPc, joining, main_locking, main_testing, main_sleeping, stopping, announcing, broadcasting,
  joining_resolver, done, System, MainMove,
}

-- Whether a thread holds the lock where it stands.
abbrev pub req_in : ReqPc → Bool
req_in testing = true
req_in pushing = true
req_in counting = true
req_in numbering = true
req_in storing = true
req_in sizing = true
req_in releasing = true
req_in aborted = true
req_in _ = false

abbrev pub res_in : ResPc → Bool
res_in probing = true
res_in deciding = true
res_in (resolving name) = true
res_in settling = true
res_in stale = true
res_in _ = false

abbrev pub main_in : MainPc → Bool
main_in main_testing = true
main_in (broadcasting j) = true
main_in _ = false

-- A thread that is in the lock owns it.
abbrev pub Guards : Shared → Thread → Bool → Type 0
Guards sh t inside = inside ≡ true → sh.owner ≡ some t

-- A step of thread `t` keeps its own guard, and takes the lock from no other thread.
pub record Fair (t : Thread) (inside' : Bool) (sh sh' : Shared) : Type 0 where
  pub own : Guards sh' t inside'
  pub others : (u : Thread) → u ≢ t → sh.owner ≡ some u → sh'.owner ≡ some u

pub owner_unique : (t u : Thread) → ◌≡◌ {A = Option Thread} (some t) (some u) → t ≡ u
owner_unique t u e = cc

module _ (t : Thread) (inside inside' : Bool) (sh sh' : Shared) where
  -- The owner stays, and the thread does not come in.
  Fair-stay :
      sh'.owner ≡ sh.owner
      → (inside' ≡ true → inside ≡ true)
      → Guards sh t inside
      → Fair t inside' sh sh'
  Fair-stay same back g = record { own = λ h. same ∙ g (back h); others = λ u ne h. same ∙ h }

  Fair-take : sh.owner ≡ none → sh'.owner ≡ some t → Fair t inside' sh sh'
  Fair-take free taken = record { own = λ h. taken; others = λ u ne h. cc }

  Fair-give : inside ≡ true → inside' ≡ false → Guards sh t inside → Fair t inside' sh sh'
  Fair-give was gone g = record {
    own = λ h. cc;
    others = λ u ne h. absurd (ne (owner_unique u t (sym h ∙ g was)));
  }

module _ (n i : ℕ) (sh : Shared) (r : Requester) (g : Guards sh (requester i) (req_in r.pc)) where
  req_stay :
      (p p' : ReqPc) (sh' : Shared)
      → r.pc ≡ p
      → sh'.owner ≡ sh.owner
      → (req_in p' ≡ true → req_in p ≡ true)
      → Fair (requester i) (req_in p') sh sh'
  req_stay p p' sh' e same back =
      Fair-stay (requester i) (req_in r.pc) (req_in p') sh sh' same (λ h. ap req_in e ∙ back h) g

  req_give :
      (p p' : ReqPc) (sh' : Shared)
      → r.pc ≡ p
      → req_in p ≡ true
      → req_in p' ≡ false
      → Fair (requester i) (req_in p') sh sh'
  req_give p p' sh' e was gone =
      Fair-give (requester i) (req_in r.pc) (req_in p') sh sh' (ap req_in e ∙ was) gone g

  pub ReqMove-Fair :
      (sh' : Shared) (r' : Requester)
      → ReqMove n i sh r sh' r'
      → Fair (requester i) (req_in r'.pc) sh sh'
  ReqMove-Fair _ _ (open_ok ns e f) = req_stay opening reading sh e refl (λ h. cc)
  ReqMove-Fair _ _ (fails_early e f) = req_stay opening left_early sh e refl (λ h. cc)
  ReqMove-Fair _ _ (scan k name rest e f h) = req_stay reading locking sh e refl (λ h. cc)
  ReqMove-Fair _ _ (scan_wild k name rest e f h) = req_stay reading wild sh e refl (λ h. cc)
  ReqMove-Fair _ _ (scan_end e f) = req_stay reading draining sh e refl (λ h. cc)
  ReqMove-Fair _ _ (lock e free) =
      Fair-take (requester i) (req_in r.pc) true sh (record sh { owner = some (requester i) }) free
        refl
  ReqMove-Fair _ _ (full e f) = req_give testing locking (record sh { owner = none }) e refl refl
  ReqMove-Fair _ _ (room e f) = req_stay testing pushing sh e refl (λ h. refl)
  ReqMove-Fair _ _ (push k e f) =
      req_stay pushing counting
        (record sh { queue = (queue_push sh.queue (some (address n i k))).1 }) e refl (λ h. refl)
  ReqMove-Fair _ _ (push_wild k e f) = req_stay pushing wild sh e refl (λ h. cc)
  ReqMove-Fair _ _ (count e) =
      req_stay counting numbering (record sh { hostname_left = sh.hostname_left +ℤ pos 1 }) e refl
        (λ h. refl)
  ReqMove-Fair _ _ (number e) = req_stay numbering storing sh e refl (λ h. refl)
  ReqMove-Fair _ _ (store e) = req_stay storing sizing sh e refl (λ h. refl)
  ReqMove-Fair _ _ (grow e) = req_stay sizing releasing sh e refl (λ h. refl)
  ReqMove-Fair _ _ (grow_oom e f g) = req_stay sizing aborted sh e refl (λ h. refl)
  ReqMove-Fair _ _ (release e) = req_give releasing reading (record sh { owner = none }) e refl refl
  ReqMove-Fair _ _ (drained e f g) = req_stay draining finished sh e refl (λ h. cc)

-- The helper leaves its requester where it stands.
pub Detect-pc : (output : List Line) (r r' : Requester) → Detect output r r' → r'.pc ≡ r.pc
Detect-pc output r _ (detect k at l e b f g h j o) = refl
Detect-pc output r _ (take_off k left e) = refl

module _ (ip_of : Name → Name) (mem : ℕ → Option Name) (j : ℕ) (sh : Shared) (p : ResPc)
    (g : Guards sh (resolver j) (res_in p)) where
  res_stay :
      (q p' : ResPc) (sh' : Shared)
      → p ≡ q
      → sh'.owner ≡ sh.owner
      → (res_in p' ≡ true → res_in q ≡ true)
      → Fair (resolver j) (res_in p') sh sh'
  res_stay q p' sh' e same back =
      Fair-stay (resolver j) (res_in p) (res_in p') sh sh' same (λ h. ap res_in e ∙ back h) g

  res_give :
      (q p' : ResPc) (sh' : Shared)
      → p ≡ q
      → res_in q ≡ true
      → res_in p' ≡ false
      → Fair (resolver j) (res_in p') sh sh'
  res_give q p' sh' e was gone =
      Fair-give (resolver j) (res_in p) (res_in p') sh sh' (ap res_in e ∙ was) gone g

  res_take :
      (p' : ResPc)
      → sh.owner ≡ none
      → Fair (resolver j) (res_in p') sh (record sh { owner = some (resolver j) })
  res_take p' free =
      Fair-take (resolver j) (res_in p) (res_in p') sh (record sh { owner = some (resolver j) })
        free refl

  pub ResMove-Fair :
      (sh' : Shared) (p' : ResPc)
      → ResMove ip_of mem j sh p sh' p'
      → Fair (resolver j) (res_in p') sh sh'
  ResMove-Fair _ _ (Resolver.leave e f) = res_stay top exited sh e refl (λ h. cc)
  ResMove-Fair _ _ (Resolver.lock e f free) = res_take probing free
  ResMove-Fair _ _ (Resolver.sleep e f h) =
      res_give probing sleeping (record sh { owner = none }) e refl refl
  ResMove-Fair _ _ (Resolver.wake e free) = res_take probing free
  ResMove-Fair _ _ (Resolver.pass e f) = res_stay probing deciding sh e refl (λ h. refl)
  ResMove-Fair _ _ (Resolver.pass_stopped e f) = res_stay probing deciding sh e refl (λ h. refl)
  ResMove-Fair _ _ (Resolver.stop e f) =
      res_give deciding exited (record sh { owner = none }) e refl refl
  ResMove-Fair _ _ (Resolver.take a q name e f h g) =
      res_stay deciding (resolving name) (record sh { queue = q }) e refl (λ h. refl)
  ResMove-Fair _ _ (Resolver.take_freed a q e f h g) =
      res_stay deciding stale (record sh { queue = q }) e refl (λ h. refl)
  ResMove-Fair _ _ (Resolver.take_null q e f h) =
      res_stay deciding crashed (record sh { queue = q }) e refl (λ h. cc)
  ResMove-Fair _ _ (Resolver.unlock name e) =
      res_give (resolving name) (writing name) (record sh { owner = none }) e refl refl
  ResMove-Fair _ _ (Resolver.append name e) =
      res_stay (writing name) relocking
        (record sh {
          output = sh.output ++ (record { hostname = name; ipstring = ip_of name } ∷ []);
        })
        e refl (λ h. cc)
  ResMove-Fair _ _ (Resolver.relock e free) = res_take settling free
  ResMove-Fair _ _ (Resolver.settle e) =
      res_give settling top (record sh { owner = none; hostname_left = sh.hostname_left -ℤ pos 1 })
        e refl refl

module _ (n m : ℕ) (s : System) (g : Guards s.shared main_thread (main_in s.main_pc)) where
  main_stay :
      (q p' : MainPc) (sh' : Shared)
      → s.main_pc ≡ q
      → sh'.owner ≡ s.shared.owner
      → main_in p' ≡ false
      → Fair main_thread (main_in p') s.shared sh'
  main_stay q p' sh' e same out =
      Fair-stay main_thread (main_in s.main_pc) (main_in p') s.shared sh' same (λ h. cc) g

  main_give :
      (p' : MainPc)
      → main_in s.main_pc ≡ true
      → main_in p' ≡ false
      → Fair main_thread (main_in p') s.shared (record s.shared { owner = none })
  main_give p' e gone =
      Fair-give main_thread (main_in s.main_pc) (main_in p') s.shared
        (record s.shared { owner = none }) e gone g

  main_take :
      s.shared.owner ≡ none
      → Fair main_thread true s.shared (record s.shared { owner = some main_thread })
  main_take free =
      Fair-take main_thread (main_in s.main_pc) true s.shared
        (record s.shared { owner = some main_thread }) free refl

  pub MainMove-Fair :
      (sh' : Shared) (p' : MainPc)
      → MainMove n m s sh' p'
      → Fair main_thread (main_in p') s.shared sh'
  MainMove-Fair _ _ (System.join i e lt f) =
      main_stay (joining i) (joining (i + 1)) s.shared e refl refl
  MainMove-Fair _ _ (System.joined e) = main_stay (joining n) main_locking s.shared e refl refl
  MainMove-Fair _ _ (System.lock e free) = main_take free
  MainMove-Fair _ _ (System.sleep e f) = main_give main_sleeping (ap main_in e) refl
  MainMove-Fair _ _ (System.wake e free) = main_take free
  MainMove-Fair _ _ (System.pass e f) = main_give (stopping 0) (ap main_in e) refl
  MainMove-Fair _ _ (System.stop j e lt) =
      main_stay (stopping j) (announcing j)
        (record s.shared { running = put j false s.shared.running }) e refl refl
  MainMove-Fair _ _ (System.announce j e free) = main_take free
  MainMove-Fair _ _ (System.broadcast j e) = main_give (joining_resolver j) (ap main_in e) refl
  MainMove-Fair _ _ (System.join_resolver j e f) =
      main_stay (joining_resolver j) (stopping (j + 1)) s.shared e refl refl
  MainMove-Fair _ _ (System.finish e) = main_stay (stopping m) done s.shared e refl refl
