-- ===== src/Hugs/Opened.antt =====
-- hugs.service.ts, the transaction of `HugsService.create`: the hug and its deliveries are written once
-- the request has been checked and its channels have been resolved.
use cliqhub_core.Prelude.{
  ℕ, ◌+◌, ◌*◌, String, List, [], ◌∷◌, ◌++◌, Option, none, map, Bool, true, false, ◌≡◌, refl,
  is_none, is_none_iff, if◌then◌else◌,
}
use cliqhub_core.Json.{Json}
use cliqhub_core.Hugs.{
  internal, HugResult, done, refused, find_hug, open_hug, Hug, HugDelivery, HugNotSentTo, Reminders,
  HugStore,
}
use cliqhub_core.Hugs.Remind.{next_remind_at}

-- Where a channel's name leads.
pub record ChannelDestination : Type 0 where
  pub channel : String
  pub channel_id : String
  pub user_id : Option String

pub record CreateHugInput : Type 0 where
  pub run_id : String
  pub daemon_id : String
  pub realm_id : String
  pub org_id : String
  pub phase : String
  pub iteration : ℕ
  pub title : String
  pub template : String
  pub template_version : ℕ
  pub params : Json
  pub channels : List String
  pub expires_in_min : ℕ
  pub reminders : Option Reminders
  pub destinations : List ChannelDestination
  pub not_sent_to : List HugNotSentTo

unfoldable pub new_hug : (id : String) (now : ℕ) → CreateHugInput → Hug
unfolding next_remind_at
new_hug id now input =
    let expires_at = now + input.expires_in_min * 60000 in
    record {
      id = id;
      run_id = input.run_id;
      phase = input.phase;
      iteration = input.iteration;
      daemon_id = input.daemon_id;
      realm_id = input.realm_id;
      org_id = input.org_id;
      title = input.title;
      template = input.template;
      template_version = input.template_version;
      params = input.params;
      channels = input.channels;
      status = open_hug;
      outcome = none;
      expires_at = expires_at;
      reminders = input.reminders;
      next_remind_at = next_remind_at now input.reminders none expires_at;
      last_reminded_at = none;
      last_seq = 0;
      created_at = now;
      closed_at = none;
      not_sent_to = input.not_sent_to;
    }

abbrev delivery_to : String → ChannelDestination → HugDelivery
delivery_to id d = record {
  hug_id = id;
  channel = d.channel;
  channel_id = d.channel_id;
  user_id = d.user_id;
}

-- What the transaction writes, of an id that is free.
unfoldable pub store_hug : (id : String) (now : ℕ) → CreateHugInput → HugStore → HugStore
unfolding new_hug
store_hug id now input s = record s {
  hugs = s.hugs ++ (new_hug id now input ∷ []);
  deliveries = s.deliveries ++ map (delivery_to id) input.destinations;
}

-- The transaction: the primary key refuses an id that is taken, and then nothing is written.
unfoldable pub insert_hug : (id : String) (now : ℕ) → CreateHugInput → HugStore → HugResult HugStore
unfolding store_hug
insert_hug id now input s =
    if is_none (find_hug id s.hugs) then done (store_hug id now input s) else refused internal

pub insert_hug_lem :
    (id : String) (now : ℕ) (input : CreateHugInput) (s t : HugStore)
    → insert_hug id now input s ≡ done t
    → (find_hug id s.hugs ≡ none) × (t ≡ store_hug id now input s)
unfolding insert_hug
insert_hug_lem id now input s t e =
    written (is_none (find_hug id s.hugs)) (λ n. (is_none_iff (find_hug id s.hugs)).0 n) e
  where
    written :
        (b : Bool)
        → (b ≡ true → find_hug id s.hugs ≡ none)
        → (if b then done (store_hug id now input s) else refused internal) ≡ done t
        → (find_hug id s.hugs ≡ none) × (t ≡ store_hug id now input s)
    written true free q = (free refl, cc)
    written false free q = cc
