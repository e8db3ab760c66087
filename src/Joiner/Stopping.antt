-- ===== src/Joiner/Stopping.antt =====
-- DShow.cpp, `CAVIJoiner::Stop`: nothing is sent once it has begun.
use win_dv.Prelude.{ℕ, ◌≡◌, refl, ap₂, true, List, [], ◌++◌, arith}
use win_dv.Joiner.{
  Joiner, Out, handle_frame, joiner_thread, request_stop, Step, Steps, deliver, deliver_end, wake,
  done, next,
}

module _ {F : Type 0} (content : List ℕ → List F) where
  -- A step of a joiner that is stopping sends nothing, and it is stopping after it.
  abbrev IsSilent : Joiner F → List (Out F) → Type 0
  IsSilent j' o = (o ≡ []) × (j'.stopping ≡ true)

  Step-IsSilent :
      {j j' : Joiner F} {o : List (Out F)} → j.stopping ≡ true → Step content j o j' → IsSilent j' o
  unfolding handle_frame joiner_thread
  Step-IsSilent s (deliver j r x xs has runs left) = ground (arith, s)
  Step-IsSilent s (deliver_end j r has runs left unended) = ground (arith, s)
  Step-IsSilent s (wake j alive set) = ground (arith, s)

  Steps-IsSilent :
      {j j' : Joiner F} {o : List (Out F)} → j.stopping ≡ true → Steps content j o j' → o ≡ []
  Steps-IsSilent s (done j) = refl
  Steps-IsSilent s (next step more) =
      let (nothing, s') = Step-IsSilent s step in
      ap₂ (λ a b. a ++ b) nothing (Steps-IsSilent s' more)

  -- Once `Stop` has begun, whatever the reader and the thread still do, nothing is sent.
  pub request_stop_silent :
      (j j' : Joiner F) (o : List (Out F)) → Steps content (request_stop j) o j' → o ≡ []
  unfolding request_stop
  request_stop_silent j j' o steps = Steps-IsSilent refl steps
