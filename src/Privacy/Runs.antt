-- ===== src/Privacy/Runs.antt =====
-- The installation as its processes see it: the calls of the API in application/privacy/service.py,
-- and the workers of application/privacy/processor.py. `_claim`, the work of `_process` and
-- `_record_failure` are transactions of their own, and any number of workers may be at work, on the
-- same request too, once a lease has run out. The work reads the row when it starts; what it writes
-- is written when it ends.
use visi_on_route.Prelude.{List, Option, String, Time, [], none, some, suc, zero, ℕ, ◌∷◌}
use visi_on_route.Tx.{request}
use visi_on_route.Access.Context.{RequestContext}
use visi_on_route.Privacy.Store.{Store, PrivacyRequest}
use visi_on_route.Privacy.Service.{Subject, Draw, create_request, cancel}
use visi_on_route.Privacy.Erasing.{Worker}
use visi_on_route.Privacy.Processor.{claim, conclude, perform, started_row}

-- The database, and the requests that workers have read and are working on
pub record System : Type 0 where
  pub store : Store
  pub runs : List PrivacyRequest

abbrev pub run_at : ℕ → List PrivacyRequest → Option PrivacyRequest
run_at n [] = none
run_at zero (x ∷ xs) = some x
run_at (suc n) (x ∷ xs) = run_at n xs

abbrev pub without_run : ℕ → List PrivacyRequest → List PrivacyRequest
without_run n [] = []
without_run zero (x ∷ xs) = xs
without_run (suc n) (x ∷ xs) = x ∷ without_run n xs

-- A call of the API, a round of claims, a worker that takes up a request, or the end of the work
-- of one of those that are at work.
pub data Step : Type 0 where
  asked : Draw → RequestContext → Subject → Option String → Step
  canceled : RequestContext → Time → ℕ → ℕ → Step
  claimed : ℕ → Time → Step
  started : ℕ → Step
  concluded : Worker → Time → ℕ → Step

abbrev pub start_run : Option PrivacyRequest → List PrivacyRequest → List PrivacyRequest
start_run none runs = runs
start_run (some x) runs = x ∷ runs

abbrev pub end_run : Worker → Time → Option PrivacyRequest → Store → Store
end_run w now none s = s
end_run w now (some x) s = (conclude w now x (perform w now x s.subjects) s).1

unfoldable pub take_step : Step → System → System
take_step (Step.asked d ctx a reason) s = record s {
  store = (request (create_request d ctx a reason) s.store).1;
}
take_step (Step.canceled ctx now tenant k) s = record s {
  store = (request (cancel ctx now tenant k) s.store).1;
}
take_step (Step.claimed limit now) s = record s { store = (claim limit now s.store).1 }
take_step (Step.started k) s = record s { runs = start_run (started_row k s.store) s.runs }
take_step (Step.concluded w now n) s = record {
  store = end_run w now (run_at n s.runs) s.store;
  runs = without_run n s.runs;
}

abbrev pub take_steps : List Step → System → System
take_steps [] s = s
take_steps (x ∷ xs) s = take_steps xs (take_step x s)
