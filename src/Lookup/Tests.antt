-- ===== src/Lookup/Tests.antt =====
-- The theorems on lab3/multi-lookup.c at runs of it: one requester, one resolver, and a file that
-- begins with the name "a".
use model_lib.Prelude.{
  ℕ, ◌≡◌, ◌≢◌, ◌<◌, ◌≤◌, ◌+◌, zero, suc, refl, true, false, Option, none, some, List, [], ◌∷◌,
  arith, inl, length,
}
use model_lib.Prelude.Int.{◌+ℤ◌, ◌-ℤ◌, pos_part, neg_part}
use model_lib.Queue.{queue_pop, queue_push, queue_is_full, queue_is_empty}
use model_lib.Lookup.{Name, host_field, requester}
use model_lib.Lookup.Requester.{
  Requester, Detect, ReqMove, detect, open_ok, scan, room, push, count, number, store, grow,
  release, scan_end, drained, take_off, pushing, names, Returned,
}
use model_lib.Lookup.Requester
use model_lib.Lookup.Resolver.{ResMove, pass, take, unlock, append, relock, settle, crashed}
use model_lib.Lookup.Resolver
use model_lib.Lookup.System.{
  System, Step, Reach, begin, next, requester_step, resolver_step, helper_step, main_step,
}
use model_lib.Lookup.System
use model_lib.Queue.Shape.{Holds}
use model_lib.Lookup.Family.{sum_below}
use model_lib.Lookup.Owners.{mutual_exclusion}
use model_lib.Lookup.Counts.{all_pushes, all_unwritten, all_uncounted, all_holding}
use model_lib.Lookup.Joined.{waited}
use model_lib.Lookup.Complete.{names_accounted, queue_calls_succeed, complete_output}
use model_lib.Lookup.System.{join, joined}

abbrev pub ip_of : Name → Name
ip_of name = 49 ∷ []

abbrev pub name_a : Name
name_a = 97 ∷ []

abbrev pub files : List Name → ℕ → Option (List Name)
files rest zero = some (name_a ∷ rest)
files rest (suc i) = none

-- A reachable state.
abbrev pub Place : List Name → Type 0
Place rest = record { state : System; path : Reach ip_of 1 1 (files rest) state }

only_first {ℓ} : (P : ℕ → Type ℓ) → P 0 → (j : ℕ) → j ≤ 0 → P j
only_first P h zero le = h
only_first P h (suc j) le = absurd (omega arith)

pushed : (rest : List Name) → Place rest
unfolding queue_is_full queue_push queue_is_empty queue_pop host_field
pushed rest = record {
  state = _;
  path =
      next
        (next
          (next
            (next
              (next ((begin)) (requester_step 0 (omega arith) (open_ok (name_a ∷ rest) refl refl)))
              (requester_step 0 (omega arith) (scan 0 name_a rest refl refl refl)))
            (requester_step 0 (omega arith) (Requester.lock refl refl)))
          (requester_step 0 (omega arith) (room refl refl)))
        (requester_step 0 (omega arith) (push 0 refl refl));
}

counted : (rest : List Name) → Place rest
unfolding queue_is_full queue_push queue_is_empty queue_pop host_field pushed
counted rest = record {
  state = _;
  path =
      next
        (next
          (next
            (next (next ((pushed rest).path) (requester_step 0 (omega arith) (count refl)))
              (requester_step 0 (omega arith) (number refl)))
            (requester_step 0 (omega arith) (store refl)))
          (requester_step 0 (omega arith) (grow refl)))
        (requester_step 0 (omega arith) (release refl));
}

written : (rest : List Name) → Place rest
unfolding queue_is_full queue_push queue_is_empty queue_pop host_field pushed counted
written rest = record {
  state = _;
  path =
      next
        (next
          (next
            (next
              (next ((counted rest).path)
                (resolver_step 0 (omega arith) (Resolver.lock refl refl refl)))
              (resolver_step 0 (omega arith) (pass refl refl)))
            (resolver_step 0 (omega arith) (take 0 _ name_a refl refl refl refl)))
          (resolver_step 0 (omega arith) (unlock name_a refl)))
        (resolver_step 0 (omega arith) (append name_a refl));
}

detected : (rest : List Name) → Place rest
unfolding queue_is_full queue_push queue_is_empty queue_pop ◌+ℤ◌ ◌-ℤ◌ host_field pushed counted
    written
detected rest = record {
  state = _;
  path =
      next
        (next ((written rest).path) (
          helper_step 0 (omega arith) (
            detect 0 0 _ (λ h. ground arith) refl (omega arith) (only_first _ (λ h. cc)) refl refl
              refl)))
        (helper_step 0 (omega arith) (take_off 0 _ refl));
}

pub over : Place []
unfolding queue_is_full queue_push queue_is_empty queue_pop ◌+ℤ◌ ◌-ℤ◌ host_field pushed counted
    written detected
over = record {
  state = _;
  path =
      next
        (next
          (next
            (next
              (next
                (next
                  (next
                    (next ((detected []).path)
                      (requester_step 0 (omega arith) (scan_end refl refl)))
                    (requester_step 0 (omega arith) (drained refl refl refl)))
                  (resolver_step 0 (omega arith) (relock refl refl)))
                (resolver_step 0 (omega arith) (settle refl)))
              (main_step (join 0 refl (omega arith) (inl (inl refl)))))
            (main_step (joined refl)))
          (main_step (System.lock refl refl)))
        (main_step (System.pass refl refl));
}

pub over_waited : waited over.state.main_pc ≡ true
unfolding queue_is_full queue_push queue_is_empty queue_pop ◌+ℤ◌ ◌-ℤ◌ host_field pushed counted
    written detected over
over_waited = refl

mutual_exclusion_example : requester 0 ≡ requester 0
unfolding queue_is_full queue_push queue_is_empty queue_pop host_field pushed
mutual_exclusion_example =
    mutual_exclusion ip_of 1 1 (files []) (pushed []).path (requester 0) (requester 0) refl refl

names_accounted_example :
    (items : List ℕ) × Holds (written []).state.shared.queue items
    × (all_pushes 1 1 (written []).state
        ≡ length items
          + all_unwritten 1 1 (written []).state
          + length (written []).state.shared.output)
    × (pos_part (written []).state.shared.hostname_left + all_uncounted 1 1 (written []).state
        ≡ length items + all_holding 1 1 (written []).state)
    × (neg_part (written []).state.shared.hostname_left ≡ 0)
names_accounted_example = names_accounted ip_of 1 1 (files []) (written []).path

queue_calls_succeed_example :
    ((i : ℕ)
      → ((pushed []).state.requesters i).pc ≡ pushing
      → queue_is_full (pushed []).state.shared.queue ≡ false)
    × ((j : ℕ) → (pushed []).state.resolvers j ≢ crashed)
queue_calls_succeed_example = queue_calls_succeed ip_of 1 1 (files []) (pushed []).path

complete_output_example :
    (length over.state.shared.output ≡ sum_below 1 (λ i. length (names (files [] i))))
    × (queue_is_empty over.state.shared.queue ≡ true)
    × (all_holding 1 1 over.state ≡ 0)
    × ((i : ℕ) → i < 1 → Returned (over.state.requesters i).pc)
unfolding queue_is_full queue_push queue_is_empty queue_pop ◌+ℤ◌ ◌-ℤ◌ host_field pushed counted
    written detected over
complete_output_example = complete_output ip_of 1 1 (files []) over.path refl
