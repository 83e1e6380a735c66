-- ===== src/Parent/Ends.antt =====
-- The runs of lab4/parent.c: how long they are, and where they stop.
use model_lib.Prelude.{
  ℕ, ◌+◌, ◌-◌, ◌*◌, ◌≤◌, ◌≡◌, ◌≢◌, ◌⊎◌, inl, inr, true, false, append_assoc, refl, sym, ◌∙◌, ap,
  List, [], ◌∷◌, ◌++◌, length, length-append, arith, dec_lt,
}
use model_lib.Prelude.Int.{pos_part}
use model_lib.Parent.{
  Job, Child, starting, running, exited, Place, forking, waiting, finished, State, Step, fork,
  fork_fails, all_forked, exec, exec_fails, program_ends, wait_one, wait_none, Run, begin, next,
}

-- The steps that a child has still to take, the one that waits for it included.
abbrev steps : Child → ℕ
steps starting = 3
steps (running ends) = 2
steps exited = 1

all_steps : List Child → ℕ
all_steps [] = 0
all_steps (c ∷ cs) = steps c + all_steps cs

all_steps-append : (xs ys : List Child) → all_steps (xs ++ ys) ≡ all_steps xs + all_steps ys
unfolding all_steps
all_steps-append [] ys = omega arith
all_steps-append (c ∷ cs) ys = omega (arith, all_steps-append cs ys)

all_steps-cons : (c : Child) (cs : List Child) → all_steps (c ∷ cs) ≡ steps c + all_steps cs
unfolding all_steps
all_steps-cons c cs = refl

all_steps-nil : all_steps [] ≡ 0
unfolding all_steps
all_steps-nil = refl

-- All of them are in a program that does not end.
abbrev pub AllHung : List Child → Type 0
AllHung [] = Unit {0}
AllHung (c ∷ cs) = (c ≡ running false) × AllHung cs

module _ (job : Job) where
  abbrev n : ℕ
  n = pos_part job.num_children

  -- The calls of `fork` that are behind, and the steps of the process still to come.
  abbrev forked : Place → ℕ
  forked (forking i) = i
  forked waiting = n
  forked finished = n

  abbrev left : Place → ℕ
  left (forking i) = 4 * (n - i) + 2
  left waiting = 1
  left finished = 0

  record Inv (k : ℕ) (s : State) : Type 0 where
    few : forked s.pc ≤ n
    accounted : length s.children + s.reaped + s.failures ≡ forked s.pc
    bounded : k + left s.pc + all_steps s.children ≤ 4 * n + 2
    none_left : s.pc ≡ finished → s.children ≡ []

  -- A child takes a step.
  Inv-child :
      (k : ℕ) (s : State) (before after : List Child) (c d : Child)
      → Inv k s
      → s.children ≡ before ++ (c ∷ after)
      → steps d + 1 ≤ steps c
      → Inv (k + 1) (record s { children = before ++ (d ∷ after) })
  Inv-child k s before after c d v e lt = record {
    few = v.few;
    accounted = omega (
      arith,
      v.accounted,
      ap length e,
      length-append before (c ∷ after),
      length-append before (d ∷ after),
    );
    bounded = omega (
      arith,
      v.bounded,
      ap all_steps e,
      all_steps-append before (c ∷ after),
      all_steps-append before (d ∷ after),
      all_steps-cons c after,
      all_steps-cons d after,
      lt,
    );
    none_left = λ h.
        absurd (omega (arith, ap length (sym e ∙ v.none_left h), length-append before (c ∷ after)));
  }

  Step-Inv : (k : ℕ) (s t : State) → Inv k s → Step job s t → Inv (k + 1) t
  Step-Inv k s t v (fork i e lt) = record {
    few = omega arith;
    accounted = omega (arith, v.accounted, ap forked e);
    bounded = omega (arith, v.bounded, ap left e, all_steps-cons starting s.children);
    none_left = λ h. cc;
  }
  Step-Inv k s t v (fork_fails i e lt) = record {
    few = omega arith;
    accounted = omega (arith, v.accounted, ap forked e);
    bounded = omega (arith, v.bounded, ap left e);
    none_left = λ h. cc;
  }
  Step-Inv k s t v (all_forked i e le) = record {
    few = omega arith;
    accounted = omega (arith, v.accounted, ap forked e, v.few);
    bounded = omega (arith, v.bounded, ap left e);
    none_left = λ h. cc;
  }
  Step-Inv k s t v (exec ends before after e) =
      Inv-child k s before after starting (running ends) v e (omega arith)
  Step-Inv k s t v (exec_fails before after e) =
      Inv-child k s before after starting exited v e (omega arith)
  Step-Inv k s t v (program_ends before after e) =
      Inv-child k s before after (running true) exited v e (omega arith)
  Step-Inv k s t v (wait_one before after w e) = record {
    few = v.few;
    accounted = omega (
      arith,
      v.accounted,
      ap length e,
      length-append before (exited ∷ after),
      length-append before after,
    );
    bounded = omega (
      arith,
      v.bounded,
      ap all_steps e,
      all_steps-append before (exited ∷ after),
      all_steps-append before after,
      all_steps-cons exited after,
    );
    none_left = λ h. cc;
  }
  Step-Inv k s t v (wait_none w e) = record {
    few = omega arith;
    accounted = omega (arith, v.accounted, ap forked w);
    bounded = omega (arith, v.bounded, ap left w);
    none_left = λ h. e;
  }

  Run-Inv : {k : ℕ} {s : State} → Run job k s → Inv k s
  Run-Inv begin = record {
    few = omega arith;
    accounted = omega arith;
    bounded = omega (arith, all_steps-nil);
    none_left = λ h. refl;
  }
  Run-Inv (next {k} {s} {t} r st) = Step-Inv k s t (Run-Inv r) st

  -- A child that is not in a program without end is ready for a step.
  child_goes :
      (s : State) (before after : List Child) (c : Child)
      → s.pc ≡ waiting
      → s.children ≡ before ++ (c ∷ after)
      → ((t : State) × Step job s t) ⊎ (c ≡ running false)
  child_goes s before after starting w e = inl (_, exec_fails before after e)
  child_goes s before after (running true) w e = inl (_, program_ends before after e)
  child_goes s before after (running false) w e = inr refl
  child_goes s before after exited w e = inl (_, wait_one before after w e)

  children_go :
      (s : State) (before cs : List Child)
      → s.pc ≡ waiting
      → s.children ≡ before ++ cs
      → ((t : State) × Step job s t) ⊎ AllHung cs
  children_go s before [] w e = inr tt
  children_go s before (c ∷ cs) w e = elim (child_goes s before cs c w e) [
    | inl goes ↦ inl goes
    | inr hangs ↦
        elim (children_go s (before ++ (c ∷ [])) cs w (e ∙ sym (append_assoc before (c ∷ []) cs))) [
          | inl goes ↦ inl goes
          | inr rest ↦ inr (hangs, rest)
        ]
  ]

  -- A process that has not finished can take a step, or a child can, or it waits for children that are
  -- all in programs without end.
  goes_on :
      (s : State) (place : Place)
      → s.pc ≡ place
      → place ≢ finished
      → ((t : State) × Step job s t) ⊎ ((s.pc ≡ waiting) × (s.children ≢ []) × AllHung s.children)
  goes_on s (forking i) e ne = elim (dec_lt i n) [
    | yes lt ↦ inl (_, fork i e lt)
    | no ge ↦ inl (_, all_forked i e (omega arith))
  ]
  goes_on s waiting e ne = elim (children_go s [] s.children e refl) [
    | inl goes ↦ inl goes
    | inr hung ↦ some_child s.children refl hung
  ]
    where
      some_child :
          (cs : List Child)
          → s.children ≡ cs
          → AllHung s.children
          → ((t : State) × Step job s t)
            ⊎ ((s.pc ≡ waiting) × (s.children ≢ []) × AllHung s.children)
      some_child [] f hung = inl (_, wait_none e f)
      some_child (c ∷ cs) f hung = inr (e, λ h. absurd (cons_ne (sym f ∙ h)), hung)
        where
          cons_ne : ◌≡◌ {A = List Child} (c ∷ cs) [] → ⊥
          cons_ne h = cc
  goes_on s finished e ne = absurd (ne refl)

  -- Every run has at most 4n + 2 steps, where n is `numChildren` or 0 if this is negative. As long as
  -- the process has not finished there is a next step, but for one case: it waits, and its children,
  -- one at least, are all in programs that do not end. When it has finished no child is left: it has
  -- waited for one child for each `fork` that did not fail, of n calls of `fork`.
  pub runs_bounded :
      {k : ℕ} {s : State}
      → Run job k s
      → (k ≤ 4 * pos_part job.num_children + 2)
        × (s.pc ≢ finished
            → ((t : State) × Step job s t)
              ⊎ ((s.pc ≡ waiting) × (s.children ≢ []) × AllHung s.children))
        × (s.pc ≡ finished
            → (s.children ≡ []) × (s.reaped + s.failures ≡ pos_part job.num_children))
  runs_bounded {k} {s} r =
      let v = Run-Inv r in
      (
        omega (arith, v.bounded),
        λ ne. goes_on s s.pc refl ne,
        λ e. (v.none_left e, omega (arith, v.accounted, ap forked e, ap length (v.none_left e))),
      )
