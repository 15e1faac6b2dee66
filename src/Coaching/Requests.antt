-- ===== src/Coaching/Requests.antt =====
-- What clients of the coaching service can rely on, over any requests.
use visi_on_route.Prelude.{List, TextMethods, Time, [], arith, some, ℕ, ◌∷◌, ◌≡◌}
use visi_on_route.Coaching.Store.{Store, CoachingAction}
use visi_on_route.Access.Context.{RequestContext}
use visi_on_route.Coaching.Status.{CoachingStatus}
use visi_on_route.Tx.{request, request-Keeps, Tx, Error, err}
use visi_on_route.Coaching.Shape.{IsValid}
use visi_on_route.Coaching.Commands.{Surroundings, create_action, Creation}
use visi_on_route.Coaching.Changes.{Details, Changes, update_action, transition, transition_row}
use visi_on_route.Coaching.Create.{create_action-Keeps}
use visi_on_route.Coaching.Update.{update_action-Keeps}
use visi_on_route.Coaching.Service.{visible_action, get_action}
use visi_on_route.Coaching.Validity.{transition-Keeps}

-- A request of a caller, in a tenant.
pub data Request : Type 0 where
  create : RequestContext → ℕ → Surroundings → Creation → Request
  update : RequestContext → ℕ → Surroundings → ℕ → Changes → Request
  move : RequestContext → ℕ → Surroundings → ℕ → CoachingStatus → Details → Request

abbrev pub step : Request → Store → Store
step (create ctx tenant env c) s = (request (create_action env ctx tenant c) s).1
step (update ctx tenant env k c) s =
    (request (update_action env.text env.has_mail env.now ctx tenant k c) s).1
step (move ctx tenant env k target d) s =
    (request (transition env.text env.now ctx tenant k target d) s).1

-- The requests of a day, one after another.
unfoldable pub serve : List Request → Store → Store
serve [] s = s
serve (r ∷ rs) s = serve rs (step r s)

-- What other transactions do between the two halves of a creation keeps the invariant.
abbrev pub OthersBehave : Store → Request → Type 0
OthersBehave past (create ctx tenant env c) =
    (s : Store) → IsValid past s → IsValid past (env.others s)
OthersBehave past _ = Unit

abbrev pub AllBehave : Store → List Request → Type 0
AllBehave past [] = Unit
AllBehave past (r ∷ rs) = OthersBehave past r × AllBehave past rs

step-IsValid :
    (past : Store) (r : Request) (s : Store)
    → OthersBehave past r
    → IsValid past s
    → IsValid past (step r s)
step-IsValid past (create ctx tenant env c) s o v =
    request-Keeps (create_action env ctx tenant c) s (create_action-Keeps past env ctx tenant o c) v
step-IsValid past (update ctx tenant env k c) s o v =
    request-Keeps (update_action env.text env.has_mail env.now ctx tenant k c) s
      (update_action-Keeps past env.text env.has_mail env.now ctx tenant k c) v
step-IsValid past (move ctx tenant env k target d) s o v =
    request-Keeps (transition env.text env.now ctx tenant k target d) s
      (transition-Keeps past ctx tenant k env.text env.now target d) v

-- From valid rows, any requests of any callers lead to valid rows, if what other transactions
-- commit in the middle of a creation keeps the rows valid: identifiers stay unique, an event of a
-- tenant never has two active actions, every row has the columns that its status calls for, and
-- the rows that `past` holds as completed or canceled are unchanged.
pub serve-IsValid :
    (past : Store) (rs : List Request) (s : Store)
    → AllBehave past rs
    → IsValid past s
    → IsValid past (serve rs s)
unfolding serve
serve-IsValid past [] s o v = v
serve-IsValid past (r ∷ rs) s o v =
    serve-IsValid past rs (step r s) o.1 (step-IsValid past r s o.0 v)

module _ (text : TextMethods) (now : Time) (ctx : RequestContext) (tenant action_id : ℕ)
    (target : CoachingStatus) (d : Details) (tx : Tx Store) {a : CoachingAction}
    (found : visible_action ctx tenant action_id tx.current ≡ some a) where
  -- A transition of an action that the caller sees writes nothing if it raises.
  pub transition_error_writes_nothing :
      (e : Error)
      → (transition text now ctx tenant action_id target d tx).0 ≡ err e
      → (transition text now ctx tenant action_id target d tx).1 ≡ tx
  unfolding transition get_action transition_row
  transition_error_writes_nothing e h = ground (arith, found)
