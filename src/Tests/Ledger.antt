-- ===== src/Tests/Ledger.antt =====
-- ledger/claim_verifier.py: a claim with two observations.
use network.Prelude.{◌≡◌, refl, ◌≢◌, none, some, [], ◌∷◌, String, true, contains}
use network.Prelude.Order.{sorted, unique}
use network.Prelude.Dict.{lookup}
use network.Ledger.ClaimVerifier.{
  parsed, Observation, Claim, ClaimVerifier, event_of, check_event, check_observation, check_item,
  reasons_of, origins_of, verify,
}
use network.Ledger.ClaimVerifier.Laws.{Relevant, OfDevice, admitted_sound}

abbrev version_seen : Observation
version_seen = record {
  raw_id = "raw-1";
  parser_id = "cisco.show_version";
  parser_version = "1.0.0";
  field = "version";
  parse_status = parsed;
  superseded_by = none;
}

abbrev version_seen_again : Observation
version_seen_again = record version_seen { raw_id = "raw-2" }

-- Two observations of one switch, from two events.
abbrev verifier : ClaimVerifier
verifier = record {
  observations = ("obs-1", version_seen) ∷ ("obs-2", version_seen_again) ∷ [];
  artifacts =
      ("raw-1", record { event_id = "evt-1" }) ∷ ("raw-2", record { event_id = "evt-2" }) ∷ [];
  events =
      ("evt-1", record { device_id = some "sw1"; command_or_op = "show version" })
      ∷ ("evt-2", record { device_id = some "sw1"; command_or_op = "show version" })
      ∷ [];
  command_ref = λ id version. some "show version";
}

abbrev site_claim : Claim
site_claim = record {
  subject_entity = record { entity_type = "SITE"; entity_ref = "hq" };
  predicate = "version";
  evidence_ids = "obs-1" ∷ "obs-2" ∷ [];
}

site_admitted : (verify verifier site_claim).admitted ≡ true
unfolding verify sorted unique contains reasons_of origins_of check_item check_observation
    check_event event_of lookup
site_admitted = refl

admitted_sound_example :
    ((i : String) → contains i ("obs-1" ∷ "obs-2" ∷ []) ≡ true → Relevant verifier site_claim i)
    × ((i j a b : String)
        → site_claim.subject_entity.entity_type ≢ "DEVICE"
        → contains i ("obs-1" ∷ "obs-2" ∷ []) ≡ true
        → contains j ("obs-1" ∷ "obs-2" ∷ []) ≡ true
        → OfDevice verifier i a
        → OfDevice verifier j b
        → a ≡ b)
admitted_sound_example = admitted_sound verifier site_claim site_admitted
