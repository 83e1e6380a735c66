-- ===== src/Lookup/Resolver.antt =====
-- `doLookup` of lab3/multi-lookup.c.
use model_lib.Prelude.{ℕ, ◌≡◌, true, false, Option, none, some, [], ◌∷◌, ◌++◌}
use model_lib.Prelude.Int.{pos, ◌-ℤ◌}
use model_lib.Queue.{Queue, queue_is_empty, queue_pop}
use model_lib.Lookup.{Name, resolver, Shared}

-- Where a resolver stands, with the name that it has taken.
pub data ResPc : Type 0 where
  top : ResPc  -- at `while(x && *quit)`
  probing : ResPc  -- at `while(queue_is_empty(&qt) && (*quit))`
  sleeping : ResPc  -- in `pthread_cond_wait(&lookupCond, &qlock)`
  deciding : ResPc  -- at `if(*quit == 0)`
  resolving : Name → ResPc  -- with a name popped, at the unlock
  writing : Name → ResPc  -- before the line is appended
  relocking : ResPc  -- after it, before the second lock
  settling : ResPc  -- at `hostnameLeft -= 1`
  exited : ResPc
  crashed : ResPc  -- `strncpy` from NULL
  stale : ResPc  -- `strncpy` from a buffer that its requester has freed, which is undefined

-- `myDnsLookup` gives a text, or fails, and then the text is empty: `ip_of` is a parameter.
-- `memory` reads the bytes that a pointer leads to, `none` where they are freed.
module _ (ip_of : Name → Name) (memory : ℕ → Option Name) where
  pub data ResMove (j : ℕ) (sh : Shared) (p : ResPc) : Shared → ResPc → Type 0 where
    leave : p ≡ top → sh.running j ≡ false → ResMove j sh p sh exited
    lock :
        p ≡ top
        → sh.running j ≡ true
        → sh.owner ≡ none
        → ResMove j sh p (record sh { owner = some (resolver j) }) probing
    sleep :
        p ≡ probing
        → queue_is_empty sh.queue ≡ true
        → sh.running j ≡ true
        → ResMove j sh p (record sh { owner = none }) sleeping
    -- A wake-up may also be spurious, so no signal is asked for.
    wake :
        p ≡ sleeping
        → sh.owner ≡ none
        → ResMove j sh p (record sh { owner = some (resolver j) }) probing
    pass : p ≡ probing → queue_is_empty sh.queue ≡ false → ResMove j sh p sh deciding
    pass_stopped : p ≡ probing → sh.running j ≡ false → ResMove j sh p sh deciding
    stop : p ≡ deciding → sh.running j ≡ false → ResMove j sh p (record sh { owner = none }) exited
    take :
        (a : ℕ) (q : Queue) (name : Name)
        → p ≡ deciding
        → sh.running j ≡ true
        → queue_pop sh.queue ≡ (some a, q)
        → memory a ≡ some name
        → ResMove j sh p (record sh { queue = q }) (resolving name)
    take_freed :
        (a : ℕ) (q : Queue)
        → p ≡ deciding
        → sh.running j ≡ true
        → queue_pop sh.queue ≡ (some a, q)
        → memory a ≡ none
        → ResMove j sh p (record sh { queue = q }) stale
    take_null :
        (q : Queue)
        → p ≡ deciding
        → sh.running j ≡ true
        → queue_pop sh.queue ≡ (none, q)
        → ResMove j sh p (record sh { queue = q }) crashed
    unlock :
        (name : Name)
        → p ≡ resolving name
        → ResMove j sh p (record sh { owner = none }) (writing name)
    append :
        (name : Name)
        → p ≡ writing name
        → ResMove j sh p
            (record sh {
              output = sh.output ++ (record { hostname = name; ipstring = ip_of name } ∷ []);
            })
            relocking
    relock :
        p ≡ relocking
        → sh.owner ≡ none
        → ResMove j sh p (record sh { owner = some (resolver j) }) settling
    settle :
        p ≡ settling
        → ResMove j sh p (record sh { owner = none; hostname_left = sh.hostname_left -ℤ pos 1 }) top
