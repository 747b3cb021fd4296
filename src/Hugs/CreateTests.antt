-- ===== src/Hugs/CreateTests.antt =====
-- A request to open a hug, and the theorems of `create` at it.
use cliqhub_core.Prelude.{trim, false, true, ◌≡◌, refl, [], ◌∷◌, none, some}
use cliqhub_core.Json.{end, field, str, null}
use cliqhub_core.Hugs.{HugStore, done, accepted, HugContext}
use cliqhub_core.Hugs.Create.{HugSpec, HugRequest, OpenContext}
use cliqhub_core.Hugs.Creates.{create}
use cliqhub_core.Hugs.Outcome.{Outcome}
use cliqhub_core.Hugs.Retried.{create_twice}

abbrev members : HugContext
members = record {
  can_view_runs = λ u r. true;
  has_template = λ t v. true;
  check_answer = λ t v p r. accepted end;
  inputs_of = λ t v p. [];
  person = λ u. none;
}

abbrev spec : HugSpec
spec = record {
  title = "Approve?";
  template = "approve";
  params = null;
  channels = some (" alice " ∷ "alice" ∷ "" ∷ []);
  expires_in_min = some 60;
  reminders = none;
}

abbrev ctx : OpenContext
ctx = record {
  hugs = members;
  parse_spec = λ j. some spec;
  template_name = λ t. t;
  template_version = λ t. 1;
  check_params = λ t p. accepted (field "question" (str "Ship it?") end);
  org_of = λ r. some "org1";
  channels_named = λ n. record { id = "c1"; user_id = some "u1" } ∷ [];
  people_reached =
      λ ds. record { people = record { user_id = "u1"; channel = "alice" } ∷ []; external = false };
}

abbrev request : HugRequest
request = record {
  hug_id = some "h1";
  run_id = "r1";
  daemon_id = "d1";
  realm_id = "realm1";
  phase = "review";
  iteration = 1;
  spec = null;
}

abbrev no_hugs : HugStore
no_hugs = record {
  hugs = [];
  deliveries = [];
  responses = [];
  hug_events = [];
  artifacts = [];
  notices = [];
  queue = record { outbox = []; runs = []; events = [] };
}

abbrev one_hug : HugStore
unfolding create
one_hug = (create ctx request "u-1" 1000 no_hugs).0

was_opened : create ctx request "u-1" 1000 no_hugs ≡ (one_hug, done "h1")
unfolding one_hug create trim
was_opened = refl

create_twice_example : create ctx request "u-2" 5000 one_hug ≡ (one_hug, done "h1")
create_twice_example =
    create_twice ctx request "h1" "u-1" "u-2" 1000 5000 no_hugs one_hug "h1" refl refl was_opened
