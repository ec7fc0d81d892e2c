-- ===== src/Senders/Taken.antt =====
-- Whose messages are taken.
use tdns_mp.Prelude.{
  Option, Str, arith, false, inl, inr, is_empty, none, refl, some, str, str_eq, true, ◌↔◌, ◌≡◌, ◌⊎◌,
}
use tdns_mp.Names.{Names}
use tdns_mp.Instructions.Model.{Instructions}
use tdns_mp.Instructions.Sets.{is_among, participants_of}
use tdns_mp.Instructions.Standings.{zone_standing_lem}
use tdns_mp.Senders.Rules.{
  Bridge, IncomingMessage, ZoneAgentData, and_then, app_rfi_refusal, checks_keystate, checks_names,
  config_refusal, established, is_auditor, is_related, keystate_sender_refusal, member_refusal,
  own_infra_peer, refuse_foreign_keystate, refuse_named_sender, rfi_sender_refusal, role_agent,
  router_refusal, same_canonical,
}

-- The transport established a sender, and it is the one of this name.
abbrev pub IsFrom : Names → Str → Str → IncomingMessage → Type 0
IsFrom n name peer_id msg =
    (is_empty (established peer_id msg) ≡ false)
    × (is_empty name ≡ false)
    × (same_canonical n (established peer_id msg) name ≡ true)

module _ (n : Names) where
  -- At an agent, the sender rules let a KEYSTATE go on exactly when the transport established its
  -- sender, the message names that sender, and that sender is the agent's signer.
  pub agent_keystate_lem :
      (tm : Bridge) (peer_id : Str) (msg : IncomingMessage)
      → tm.role ≡ role_agent
      → str_eq msg.token (str "keystate") ≡ true
      → (router_refusal n tm peer_id (some msg) ≡ none) ↔ (
          (is_empty msg.sender_id ≡ false)
          × (same_canonical n msg.sender_id (established peer_id msg) ≡ true)
          × IsFrom n tm.signer_id peer_id msg)
  unfolding router_refusal and_then refuse_named_sender refuse_foreign_keystate
      keystate_sender_refusal checks_names checks_keystate
  agent_keystate_lem tm peer_id msg r t = ground (arith, r, t)

  -- The rule of rfiSenderRefusal for upstream and downstream data.
  config_refusal_lem :
      (tm : Bridge) (i : Option Instructions) (zad : ZoneAgentData) (sender subtype : Str)
      → (config_refusal n tm i (some (some zad)) sender subtype ≡ none) ↔ (
          (is_among n (participants_of i).0 tm.local_id ≡ true)
          × (is_among n (participants_of i).1 sender ≡ true)
          × (is_related n zad sender subtype ≡ true))
  unfolding config_refusal and_then member_refusal is_auditor
  config_refusal_lem tm i zad sender subtype = ground (arith, zone_standing_lem n i sender)

  rfi_config_refusal :
      (tm : Bridge) (i : Option Instructions) (registry : Option (Option ZoneAgentData))
      → (sender subtype : Str)
      → (str_eq subtype (str "upstream") ≡ true) ⊎ (str_eq subtype (str "downstream") ≡ true)
      → rfi_sender_refusal n tm i registry sender (str "CONFIG") subtype
        ≡ config_refusal n tm i registry sender subtype
  unfolding rfi_sender_refusal str_eq
  rfi_config_refusal tm i registry sender subtype (inl h) = rw h refl
  rfi_config_refusal tm i registry sender subtype (inr h) = ground (arith, h)

  -- At an agent or an auditor, and with the zone's data known, handleAppRfi lets an RFI CONFIG for
  -- the upstream or downstream data go on exactly when the sender is its own combiner or signer, or
  -- when this agent is a participant of the zone, the sender is one of the zone's voting members,
  -- and the sender is related to this agent in it.
  pub app_rfi_refusal_lem :
      (tm : Bridge) (i : Option Instructions) (zad : ZoneAgentData) (sender subtype : Str)
      → checks_names tm.role ≡ true
      → (str_eq subtype (str "upstream") ≡ true) ⊎ (str_eq subtype (str "downstream") ≡ true)
      → (app_rfi_refusal n tm i (some (some zad)) sender (str "CONFIG") subtype ≡ none) ↔ (
          (own_infra_peer n tm sender ≡ true)
          ⊎ ((is_among n (participants_of i).0 tm.local_id ≡ true)
              × (is_among n (participants_of i).1 sender ≡ true)
              × (is_related n zad sender subtype ≡ true)))
  unfolding app_rfi_refusal
  app_rfi_refusal_lem tm i zad sender subtype h k =
      let asked = rfi_config_refusal tm i (some (some zad)) sender subtype k in
      let inner = config_refusal_lem tm i zad sender subtype in ground (arith, h, asked, inner)
