-- ===== src/Future/Given.antt =====
-- What GetResult gives, and who waits for it.
use tpool.Threads.{update-all}
use tpool.Future.{
  Monitor, Pc, Reach, Step, answer, begins, calls_get, do_run, do_run_throws, get_result,
  goes_on_get, idle, is_result_returned, later, notify, runs, stand, throws, tries_get,
  try_get_result, waits, wakes, woken,
}
use tpool.Base.{
  Bool, List, Option, false, if◌then◌else◌, none, not, refl, some, subst, sym, true, ℕ, ◌∷◌, ◌≡◌,
}

module _ {ℓ} {T : Type ℓ} where
  -- The value is in the list.
  pub data Among (v : T) : List T → Type ℓ where
    here : {vs : List T} → Among v (v ∷ vs)
    there : {w : T} {vs : List T} → Among v vs → Among v (w ∷ vs)

  -- What a thread was given was returned by Call; a thread that sleeps has no result to wait for.
  pub data Fits (result : Option T) (returned : List T) : Pc T → Type ℓ where
    nothing_given : Fits result returned (idle none)
    given : {v : T} → Among v returned → Fits result returned (idle (some v))
    sleeps : result ≡ none → Fits result returned waits
    awake : Fits result returned woken

  pub data HasResult (returned : List T) : Option T → Type ℓ where
    not_ready : HasResult returned none
    ready : {v : T} → Among v returned → HasResult returned (some v)

  pub record IsFair (m : Monitor T) : Type ℓ where
    pub from_call : HasResult m.returned m.result
    pub placed : (i : ℕ) → Fits m.result m.returned (m.threads i)

  told_idle :
      (b : Bool) (result r : Option T) (returned : List T)
      → Fits result returned (idle r)
      → Fits result returned (if b then notify (idle r) else idle r)
  told_idle true result r returned f = f
  told_idle false result r returned f = f

  told_awake :
      (b : Bool) (result : Option T) (returned : List T)
      → Fits result returned (if b then notify woken else woken)
  told_awake true result returned = awake
  told_awake false result returned = awake

  -- More values have been returned, and all that sleep are told.
  grown :
      (before after : Option T) (vs ws : List T) (p : Pc T)
      → ((v : T) → Among v vs → Among v ws)
      → Fits before vs p
      → Fits after ws (if not (is_result_returned before) then notify p else p)
  grown before after vs ws (idle r) more nothing_given =
      told_idle (not (is_result_returned before)) after none ws nothing_given
  grown before after vs ws (idle r) more (given a) =
      told_idle (not (is_result_returned before)) after _ ws (given (more _ a))
  grown before after vs ws waits more (sleeps e) =
      subst (λ r. Fits after ws (if not (is_result_returned r) then notify waits else waits))
        (sym e) awake
  grown before after vs ws woken more awake = told_awake (not (is_result_returned before)) after ws

  notify-Fits :
      (result : Option T) (vs : List T) (p : Pc T) → Fits result vs p → Fits result vs (notify p)
  notify-Fits result vs (idle r) nothing_given = nothing_given
  notify-Fits result vs (idle r) (given a) = given a
  notify-Fits result vs waits (sleeps e) = awake
  notify-Fits result vs woken awake = awake

  stand-IsFair :
      (i : ℕ) (p : Pc T) (m : Monitor T)
      → Fits m.result m.returned p
      → IsFair m
      → IsFair (stand i p m)
  stand-IsFair i p m new s = record {
    from_call = s.from_call;
    placed = update-all (Fits m.result m.returned) i new s.placed;
  }

  answer-Fits :
      (result : Option T) (vs : List T) → HasResult vs result → Fits result vs (answer result)
  answer-Fits none vs not_ready = sleeps refl
  answer-Fits (some v) vs (ready a) = given a

  idle-Fits : (result : Option T) (vs : List T) → HasResult vs result → Fits result vs (idle result)
  idle-Fits none vs not_ready = nothing_given
  idle-Fits (some v) vs (ready a) = given a

  Step-IsFair : {m n : Monitor T} → Step m n → IsFair m → IsFair n
  unfolding do_run do_run_throws get_result try_get_result
  Step-IsFair {m = m} (runs value) s = record {
    from_call = ready here;
    placed = λ i.
        grown m.result (some value) m.returned (value ∷ m.returned) (m.threads i) (λ v a. there a)
          (s.placed i);
  }
  Step-IsFair {m = m} throws s = record {
    from_call = s.from_call;
    placed =
        λ i. grown m.result m.result m.returned m.returned (m.threads i) (λ v a. a) (s.placed i);
  }
  Step-IsFair {m = m} (calls_get i at) s =
      stand-IsFair i (answer m.result) m (answer-Fits m.result m.returned s.from_call) s
  Step-IsFair {m = m} (goes_on_get i at) s =
      stand-IsFair i (answer m.result) m (answer-Fits m.result m.returned s.from_call) s
  Step-IsFair {m = m} (tries_get i at) s =
      stand-IsFair i (idle m.result) m (idle-Fits m.result m.returned s.from_call) s
  Step-IsFair {m = m} (wakes i) s =
      stand-IsFair i (notify (m.threads i)) m
        (notify-Fits m.result m.returned (m.threads i) (s.placed i)) s

  -- In every state that runs of DoRun, whether Call returns or throws, and calls of GetResult and
  -- TryGetResult lead to, with any wake-ups: what a thread was given is a value that Call has
  -- returned, and a thread that waits in GetResult and has not been woken has no result to get.
  pub Reach-IsFair : {m : Monitor T} → Reach m → IsFair m
  Reach-IsFair begins = record { from_call = not_ready; placed = λ i. nothing_given }
  Reach-IsFair (later r step) = Step-IsFair step (Reach-IsFair r)
