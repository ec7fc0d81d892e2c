-- ===== src/Senders/Examples.antt =====
-- Tests and witnesses of the sender rules: an agent, its signer, and a peer that is downstream of it.
use tdns_mp.Prelude.{
  Option, Str, [], compact, contains, false, inl, is_empty, none, refl, some, sort, sorted_unique,
  str, str_eq, str_leb, true, ◌↔◌, ◌∷◌, ◌≡◌, ◌⊎◌,
}
use tdns_mp.Names.{ascii_names}
use tdns_mp.Instructions.Sets.{
  is_among, lists_agent, participants_of, standing_in, voting_of, zone_standing,
}
use tdns_mp.Senders.Rules.{
  Bridge, IncomingMessage, ZoneAgentData, and_then, app_rfi_refusal, canonical_name,
  checks_keystate, checks_names, config_refusal, established, is_auditor, is_related,
  keystate_sender_refusal, member_refusal, not_my_signer, own_infra_peer, refuse_foreign_keystate,
  refuse_named_sender, role_agent, router_refusal, same_canonical,
}
use tdns_mp.Senders.Taken.{IsFrom, agent_keystate_lem, app_rfi_refusal_lem}
use tdns_mp.Instructions.Model.{Instructions, has, identities, identity_of, providers, trim_dot}

abbrev agent : Bridge
agent = record {
  role = role_agent;
  local_id = str "a.";
  combiner_id = str "combiner.";
  signer_id = str "Signer";
  authorized_peers = none;
}

abbrev keystate_from : Str → IncomingMessage
keystate_from sender = record {
  sender_id = sender;
  transport_sender = sender;
  token = str "keystate";
}

abbrev related : ZoneAgentData
related = record { my_upstream = []; my_downstreams = str "b." ∷ [] }

abbrev zone : Option Instructions
zone = some (record {
  serial = 1;
  has_param = true;
  records =
      record { label = str "a"; identity = str "a."; upstream = [] }
      ∷ record { label = str "b"; identity = str "b."; upstream = str "a" }
      ∷ [];
  off = [];
  servers = str "a" ∷ str "b" ∷ [];
  signers = str "a" ∷ [];
  auditors = [];
  nsmgmt = 0;
  parent_sync = 0;
  suffix = [];
  pubkey = false;
  pubcds = false;
})

signer_is_taken : router_refusal ascii_names agent [] (some (keystate_from (str "signer."))) ≡ none
unfolding router_refusal and_then checks_names checks_keystate refuse_named_sender
    refuse_foreign_keystate keystate_sender_refusal established canonical_name str_eq ascii_names
signer_is_taken = refl

peer_is_refused :
    router_refusal ascii_names agent [] (some (keystate_from (str "b."))) ≡ some not_my_signer
unfolding router_refusal and_then checks_names checks_keystate refuse_named_sender
    refuse_foreign_keystate keystate_sender_refusal established canonical_name str_eq ascii_names
peer_is_refused = refl

downstream_is_taken :
    config_refusal ascii_names agent zone (some (some related)) (str "b.") (str "upstream") ≡ none
unfolding config_refusal member_refusal zone_standing standing_in is_auditor is_related and_then
    participants_of voting_of canonical_name str_eq ascii_names is_among providers identities
    identity_of trim_dot sorted_unique sort compact contains str_leb has lists_agent
downstream_is_taken = refl

agent_keystate_lem_example :
    (router_refusal ascii_names agent [] (some (keystate_from (str "signer."))) ≡ none) ↔ (
      (is_empty (str "signer.") ≡ false)
      × (same_canonical ascii_names (str "signer.") (established [] (keystate_from (str "signer.")))
          ≡ true)
      × IsFrom ascii_names (str "Signer") [] (keystate_from (str "signer.")))
unfolding str_eq
agent_keystate_lem_example =
    agent_keystate_lem ascii_names agent [] (keystate_from (str "signer.")) refl refl

app_rfi_refusal_lem_example :
    (app_rfi_refusal ascii_names agent zone
        (some (some related))
        (str "b.")
        (str "CONFIG")
        (str "upstream")
      ≡ none)
    ↔ ((own_infra_peer ascii_names agent (str "b.") ≡ true)
        ⊎ ((is_among ascii_names (participants_of zone).0 (str "a.") ≡ true)
            × (is_among ascii_names (participants_of zone).1 (str "b.") ≡ true)
            × (is_related ascii_names related (str "b.") (str "upstream") ≡ true)))
unfolding str_eq checks_names
app_rfi_refusal_lem_example =
    app_rfi_refusal_lem ascii_names agent zone related (str "b.") (str "upstream") refl (inl refl)
