-- ===== src/Senders/Rules.antt =====
-- v2/sender_rule.go: the refusals of a message by its sender, and the order in which routerMiddleware
-- (v2/hsync_transport.go) asks them. A refusal is its kind, in place of its text.
use tdns_mp.Prelude.{
  Bool, List, Option, Str, [], any, false, if◌then◌else◌, is_empty, none, not, some, str, str_eq,
  true, ◌&&◌, ◌||◌,
}
use tdns_mp.Names.{Names}
use tdns_mp.Instructions.Model.{Instructions}
use tdns_mp.Instructions.Sets.{
  Standing, is_among, participants_of, standing_auditor, votes_in, zone_standing,
}

pub data Role : Type 0 where
  role_agent role_auditor role_signer role_combiner : Role

-- What the rules read of MPTransportBridge: `authorized_peers` is what the function of that name
-- returns, `none` when there is no function.
pub record Bridge : Type 0 where
  pub role : Role
  pub local_id : Str
  pub combiner_id : Str
  pub signer_id : Str
  pub authorized_peers : Option (List Str)

-- What the rules read of transport.IncomingMessage.
pub record IncomingMessage : Type 0 where
  pub sender_id : Str
  pub transport_sender : Str
  pub token : Str

pub record ZoneAgentData : Type 0 where
  pub my_upstream : Str
  pub my_downstreams : List Str

pub data SenderRefusal : Type 0 where
  names_no_sender names_another : SenderRefusal
  not_my_signer not_my_agent : SenderRefusal
  not_voting : SenderRefusal
  self_not_member sender_not_member auditor_only no_zone_data not_related : SenderRefusal

-- A middleware refuses, or goes on to the next.
unfoldable pub and_then : Option SenderRefusal → Option SenderRefusal → Option SenderRefusal
and_then none next = next
and_then (some why) next = some why

-- The sender that the transport established.
unfoldable pub established : Str → IncomingMessage → Str
established peer_id msg = if is_empty peer_id then msg.transport_sender else peer_id

-- Whether this agent's role has middleware against a false name, and against a foreign KEYSTATE.
unfoldable pub checks_names : Role → Bool
checks_names role_agent = true
checks_names role_auditor = true
checks_names _ = false

unfoldable pub checks_keystate : Role → Bool
checks_keystate role_agent = true
checks_keystate role_signer = true
checks_keystate _ = false

unfoldable pub sync_sender_refusal : Names → Option Instructions → Str → Str → Option SenderRefusal
sync_sender_refusal n i zone sender =
    if is_empty zone || votes_in n i sender then none else some not_voting

module _ (n : Names) where
  unfoldable pub canonical_name : Str → Str
  canonical_name name = if is_empty name then [] else n.canonicalize (n.fqdn name)

  abbrev pub same_canonical : Str → Str → Bool
  same_canonical a b = str_eq (canonical_name a) (canonical_name b)

  unfoldable pub same_name : Str → Str → Bool
  same_name a b = if is_empty a || is_empty b then false else n.equal_names (n.fqdn a) (n.fqdn b)

  -- `none` for a context with no message.
  unfoldable pub refuse_named_sender : Str → Option IncomingMessage → Option SenderRefusal
  unfolding established canonical_name
  refuse_named_sender peer_id none = none
  refuse_named_sender peer_id (some msg) =
      let sender = established peer_id msg in
      if is_empty sender
      then none
      else if is_empty msg.sender_id
      then some names_no_sender
      else if not (same_canonical msg.sender_id sender)
      then some names_another
      else none

  unfoldable pub is_authorized : Option (List Str) → Str → Bool
  unfolding canonical_name
  is_authorized none sender = false
  is_authorized (some peers) sender = any (λ a. same_canonical a sender) peers

  unfoldable pub keystate_sender_refusal : Bridge → Str → Option SenderRefusal
  unfolding canonical_name is_authorized
  keystate_sender_refusal tm sender = elim (tm.role) [
    | role_agent ↦
        if is_empty sender || is_empty tm.signer_id || not (same_canonical sender tm.signer_id)
        then some not_my_signer
        else none
    | role_signer ↦
        if not (is_empty sender) && is_authorized tm.authorized_peers sender
        then none
        else some not_my_agent
    | _ ↦ none
  ]

  unfoldable pub refuse_foreign_keystate :
      Bridge → Str → Option IncomingMessage → Option SenderRefusal
  unfolding keystate_sender_refusal established
  refuse_foreign_keystate tm peer_id none = none
  refuse_foreign_keystate tm peer_id (some msg) =
      if str_eq msg.token (str "keystate")
      then keystate_sender_refusal tm (established peer_id msg)
      else none

  -- The sender rules of routerMiddleware, in its order.
  unfoldable pub router_refusal : Bridge → Str → Option IncomingMessage → Option SenderRefusal
  unfolding and_then checks_names checks_keystate refuse_named_sender refuse_foreign_keystate
  router_refusal tm peer_id msg =
      and_then (if checks_names tm.role then refuse_named_sender peer_id msg else none)
        (if checks_keystate tm.role then refuse_foreign_keystate tm peer_id msg else none)

  unfoldable pub member_refusal : Bridge → Option Instructions → Str → Option SenderRefusal
  unfolding is_among
  member_refusal tm i sender =
      let participants = (participants_of i).0 in
      if not (is_among n participants tm.local_id)
      then some self_not_member
      else if not (is_among n participants sender)
      then some sender_not_member
      else none

  unfoldable pub is_auditor : Standing → Bool
  is_auditor standing_auditor = true
  is_auditor _ = false

  unfoldable pub is_related : ZoneAgentData → Str → Str → Bool
  unfolding canonical_name
  is_related zad sender subtype =
      if str_eq subtype (str "upstream")
      then any (λ d. same_canonical d sender) zad.my_downstreams
      else same_canonical zad.my_upstream sender

  -- `registry` is the agent registry, if there is one, with the zone's data, if it has them.
  unfoldable pub config_refusal :
      Bridge
      → Option Instructions
      → Option (Option ZoneAgentData)
      → Str
      → Str
      → Option SenderRefusal
  unfolding member_refusal zone_standing is_auditor is_related and_then
  config_refusal tm i registry sender subtype =
      let related =
        λ (zad : ZoneAgentData). if is_related zad sender subtype then none else some not_related in
      and_then (member_refusal tm i sender) (
        if is_auditor (zone_standing n i sender) then some auditor_only else elim registry [
          | none ↦ none
          | some none ↦ some no_zone_data
          | some (some zad) ↦ related zad
        ])

  unfoldable pub rfi_sender_refusal :
      Bridge
      → Option Instructions
      → Option (Option ZoneAgentData)
      → Str
      → Str
      → Str
      → Option SenderRefusal
  unfolding member_refusal config_refusal
  rfi_sender_refusal tm i registry sender rfi_type subtype =
      if str_eq rfi_type (str "SYNC") || str_eq rfi_type (str "AUDIT")
      then member_refusal tm i sender
      else if not (str_eq rfi_type (str "CONFIG"))
      then none
      else if not (str_eq subtype (str "upstream")) && not (str_eq subtype (str "downstream"))
      then none
      else config_refusal tm i registry sender subtype

  unfoldable pub own_infra_peer : Bridge → Str → Bool
  unfolding canonical_name
  own_infra_peer tm sender =
      same_canonical sender tm.combiner_id || same_canonical sender tm.signer_id

  -- The rule in handleAppRfi: an agent and an auditor ask it of every peer but their own two.
  unfoldable pub app_rfi_refusal :
      Bridge
      → Option Instructions
      → Option (Option ZoneAgentData)
      → Str
      → Str
      → Str
      → Option SenderRefusal
  unfolding checks_names own_infra_peer rfi_sender_refusal
  app_rfi_refusal tm i registry sender rfi_type subtype =
      if checks_names tm.role && not (own_infra_peer tm sender)
      then rfi_sender_refusal tm i registry sender rfi_type subtype
      else none
