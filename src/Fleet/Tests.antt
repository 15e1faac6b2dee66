-- ===== src/Fleet/Tests.antt =====
-- Runs of assignments on a small fleet.
use visi_on_route.Prelude.{List, [], arith, false, hours, none, some, ◌∷◌}
use visi_on_route.Access.Context.{RequestContext}
use visi_on_route.Fleet.Service.{Store}
use visi_on_route.Fleet.Assignments.{Request, HasOneDriver, answer_all, answer_all-HasOneDriver}

abbrev manager : RequestContext
manager = record {
  user_id = some 3;
  organization_id = some 7;
  role = none;
  is_platform_admin = false;
  user_agent = none;
}

abbrev garage : Store
garage = record {
  drivers =
      record {
        id = 5;
        organization_id = 7;
        external_id = "D-5";
        full_name = "Mehmet";
        phone = none;
      }
      ∷ [];
  vehicles = record { id = 2; organization_id = 7 } ∷ [];
  devices = [];
  assignments = [];
  audits = [];
}

-- Two assignments of one vehicle, the end of the first, and a third
abbrev shifts : List Request
shifts =
    Request.assign manager (hours 1) 7 11 5 2 none
    ∷ Request.assign manager (hours 2) 7 12 5 2 none
    ∷ Request.finish manager (hours 3) 7 11 none
    ∷ Request.assign manager (hours 4) 7 13 5 2 none
    ∷ []

garage-HasOneDriver : HasOneDriver garage.assignments
garage-HasOneDriver v = omega arith

answer_all-HasOneDriver_example : HasOneDriver (answer_all shifts garage).assignments
answer_all-HasOneDriver_example = answer_all-HasOneDriver shifts garage garage-HasOneDriver
