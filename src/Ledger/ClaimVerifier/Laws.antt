-- ===== src/Ledger/ClaimVerifier/Laws.antt =====
-- ledger/claim_verifier.py: what the evidence of an admitted claim has been found to be.
use network.Prelude.{
  ◌≡◌, refl, ◌≢◌, inl, inr, true, false, Option, none, some, List, [], ◌∷◌, ◌++◌, String, str_eq,
  eq_iff, arith, ltb, length, is_empty, contains, is_filled, Option-cases, Bool-cases,
}
use network.Prelude.Order.{sorted, contains-sorted, unique, contains-unique}
use network.Prelude.Dict.{lookup}
use network.Core.Failures.{is_some}
use network.Ledger.ClaimVerifier.{
  ParseStatus, parsed, is_parsed, Observation, Event, Claim, ClaimVerifier, event_of, is_of_device,
  check_event, check_observation, check_item, reasons_of, origins_of, cross_device, verify,
}

-- The item is a live, parsed observation of the claimed field, by a registered parser, from an event
-- that ran that parser's command, on the claimed device if the claim is on a device.
pub record Relevant (cv : ClaimVerifier) (claim : Claim) (i : String) : Type 0 where
  pub observation : Observation
  pub event : Event
  pub known : lookup i cv.observations ≡ some observation
  pub live : observation.superseded_by ≡ none
  pub was_parsed : observation.parse_status ≡ parsed
  pub of_field : observation.field ≡ claim.predicate
  pub chained : event_of cv observation ≡ some event
  pub by_command :
      cv.command_ref observation.parser_id observation.parser_version ≡ some event.command_or_op
  pub on_device :
      claim.subject_entity.entity_type ≡ "DEVICE"
      → event.device_id ≡ some claim.subject_entity.entity_ref

not_some {ℓ} : {A : Type ℓ} (o : Option A) → is_some o ≡ false → o ≡ none
not_some none h = refl
not_some (some a) h = cc

parsed-eq : (s : ParseStatus) → is_parsed s ≡ true → s ≡ parsed
parsed-eq s h = ground arith

of_device-eq : (e : Event) (ref : String) → is_of_device e ref ≡ true → e.device_id ≡ some ref
of_device-eq e ref h = elim (Option-cases e.device_id) [
  | inl n ↦ absurd (ground (arith, n))
  | inr (d, s) ↦ ground (arith, s, eq_iff d ref)
]

check_event-none :
    (cv : ClaimVerifier) (claim : Claim) (i : String) (o : Observation) (e : Event)
    → (check_event cv claim i o e).reason ≡ none
    → (cv.command_ref o.parser_id o.parser_version ≡ some e.command_or_op)
      × ((claim.subject_entity.entity_type ≡ "DEVICE")
          → e.device_id ≡ some claim.subject_entity.entity_ref)
unfolding check_event
check_event-none cv claim i o e h =
    elim (Option-cases (cv.command_ref o.parser_id o.parser_version)) [
      | inl n ↦ absurd (ground (arith, n))
      | inr (command, s) ↦ (
        ground (arith, s, eq_iff e.command_or_op command),
        λ d.
            of_device-eq e claim.subject_entity.entity_ref
              (ground (arith, s, d, eq_iff claim.subject_entity.entity_type "DEVICE")),
      )
    ]

check_observation-none :
    (cv : ClaimVerifier) (claim : Claim) (i : String) (o : Observation)
    → lookup i cv.observations ≡ some o
    → (check_observation cv claim i o).reason ≡ none
    → Relevant cv claim i
unfolding check_observation
check_observation-none cv claim i o known h = elim (Option-cases (event_of cv o)) [
  | inl n ↦ absurd (ground (arith, n))
  | inr (e, s) ↦
      let (command, device) = check_event-none cv claim i o e (ground (arith, s)) in
      record {
        observation = o;
        event = e;
        known = known;
        live = not_some o.superseded_by (ground arith);
        was_parsed = parsed-eq o.parse_status (ground arith);
        of_field = (eq_iff o.field claim.predicate).0 (ground arith);
        chained = s;
        by_command = command;
        on_device = device;
      }
]

check_item-none :
    (cv : ClaimVerifier) (claim : Claim) (i : String)
    → (check_item cv claim i).reason ≡ none
    → Relevant cv claim i
unfolding check_item
check_item-none cv claim i h = elim (Option-cases (lookup i cv.observations)) [
  | inl n ↦ absurd (ground (arith, n))
  | inr (o, s) ↦ check_observation-none cv claim i o s (ground (arith, s))
]

reasons_of-nil :
    (cv : ClaimVerifier) (claim : Claim) (is : List String) (i : String)
    → reasons_of cv claim is ≡ []
    → contains i is ≡ true
    → (check_item cv claim i).reason ≡ none
unfolding reasons_of contains
reasons_of-nil cv claim [] i h c = cc
reasons_of-nil cv claim (j ∷ is) i h c = elim (Option-cases (check_item cv claim j).reason) [
  | inr (r, s) ↦ absurd (ground (arith, s))
  | inl n ↦ elim (Bool-cases (str_eq i j)) [
    | inl e ↦ rw ((eq_iff i j).0 e) n
    | inr e ↦ reasons_of-nil cv claim is i (ground (arith, n)) (ground (arith, e))
  ]
]

append_nil_left {ℓ} :
    {A : Type ℓ} (xs ys : List A) → is_empty (xs ++ ys) ≡ true → (xs ≡ []) × (ys ≡ [])
append_nil_left [] ys h = (refl, ground arith)
append_nil_left (x ∷ xs) ys h = cc

origins_of-contains :
    (cv : ClaimVerifier) (claim : Claim) (is : List String) (i d : String)
    → contains i is ≡ true
    → (check_item cv claim i).origin ≡ some d
    → contains d (origins_of cv claim is) ≡ true
unfolding origins_of contains
origins_of-contains cv claim [] i d c o = cc
origins_of-contains cv claim (j ∷ is) i d c o = elim (Bool-cases (str_eq i j)) [
  | inl e ↦
      let here : (check_item cv claim j).origin ≡ some d = rw (← (eq_iff i j).0 e) o in
      ground (arith, here, eq_iff d d)
  | inr e ↦
      let later = origins_of-contains cv claim is i d (ground (arith, e)) o in
      elim (Option-cases (check_item cv claim j).origin) [
        | inl n ↦ ground (arith, n, later)
        | inr (x, s) ↦ ground (arith, s, later)
      ]
]

one_member :
    (xs : List String) (a b : String)
    → ltb 1 (length xs) ≡ false
    → contains a xs ≡ true
    → contains b xs ≡ true
    → a ≡ b
unfolding contains
one_member [] a b h c d = cc
one_member (x ∷ []) a b h c d = ground (arith, eq_iff a x, eq_iff b x)
one_member (x ∷ y ∷ xs) a b h c d = absurd (ground arith)

contains-items :
    (claim : Claim) (i : String)
    → contains i claim.evidence_ids ≡ true
    → contains i (sorted (unique claim.evidence_ids)) ≡ true
contains-items claim i c =
    ground
      (arith, contains-sorted i (unique claim.evidence_ids), contains-unique i claim.evidence_ids)

-- The evidence names a device: its observation's event carries the device's id.
pub record OfDevice (cv : ClaimVerifier) (i d : String) : Type 0 where
  pub observation : Observation
  pub event : Event
  pub known : lookup i cv.observations ≡ some observation
  pub chained : event_of cv observation ≡ some event
  pub named : event.device_id ≡ some d
  pub filled : is_filled d ≡ true

check_event-origin :
    (cv : ClaimVerifier) (claim : Claim) (i d : String) (o : Observation) (e : Event)
    → e.device_id ≡ some d
    → is_filled d ≡ true
    → (check_event cv claim i o e).origin ≡ some d
unfolding check_event
check_event-origin cv claim i d o e named filled = ground (arith, named, filled)

check_observation-origin :
    (cv : ClaimVerifier) (claim : Claim) (i d : String) (o : Observation) (e : Event)
    → (check_observation cv claim i o).reason ≡ none
    → event_of cv o ≡ some e
    → e.device_id ≡ some d
    → is_filled d ≡ true
    → (check_observation cv claim i o).origin ≡ some d
unfolding check_observation
check_observation-origin cv claim i d o e h chained named filled =
    ground (arith, h, chained, check_event-origin cv claim i d o e named filled)

check_item-origin :
    (cv : ClaimVerifier) (claim : Claim) (i d : String)
    → (check_item cv claim i).reason ≡ none
    → OfDevice cv i d
    → (check_item cv claim i).origin ≡ some d
unfolding check_item
check_item-origin cv claim i d h x =
    let sound : (check_observation cv claim i x.observation).reason ≡ none =
      ground (arith, x.known, h) in
    let found =
      check_observation-origin cv claim i d x.observation x.event sound x.chained x.named
        x.filled in
    ground (arith, x.known, found)

same_origin :
    (cv : ClaimVerifier) (claim : Claim) (i j a b : String)
    → cross_device claim (unique (origins_of cv claim (sorted (unique claim.evidence_ids)))) ≡ []
    → claim.subject_entity.entity_type ≢ "DEVICE"
    → contains i claim.evidence_ids ≡ true
    → contains j claim.evidence_ids ≡ true
    → (check_item cv claim i).origin ≡ some a
    → (check_item cv claim j).origin ≡ some b
    → a ≡ b
unfolding cross_device
same_origin cv claim i j a b h n ci cj oi oj =
    let is = sorted (unique claim.evidence_ids) in
    let origins = origins_of cv claim is in
    one_member (unique origins) a b
      (ground (arith, n, eq_iff claim.subject_entity.entity_type "DEVICE"))
      (ground (
        arith,
        contains-unique a origins,
        origins_of-contains cv claim is i a (contains-items claim i ci) oi,
      ))
      (ground (
        arith,
        contains-unique b origins,
        origins_of-contains cv claim is j b (contains-items claim j cj) oj,
      ))

-- Every evidence id of an admitted claim names relevant evidence: a live, parsed observation of the
-- claimed field, by a registered parser, from an event of that parser's command, on the claimed
-- device. For a claim that is not on a device, the events behind all its evidence that carry a
-- device id that is not empty carry the same one.
pub admitted_sound :
    (cv : ClaimVerifier) (claim : Claim)
    → (verify cv claim).admitted ≡ true
    → ((i : String) → contains i claim.evidence_ids ≡ true → Relevant cv claim i)
      × ((i j a b : String)
          → claim.subject_entity.entity_type ≢ "DEVICE"
          → contains i claim.evidence_ids ≡ true
          → contains j claim.evidence_ids ≡ true
          → OfDevice cv i a
          → OfDevice cv j b
          → a ≡ b)
unfolding verify
admitted_sound cv claim h =
    let is = sorted (unique claim.evidence_ids) in
    let (none_found, one_device) =
      append_nil_left (reasons_of cv claim is)
        (cross_device claim (unique (origins_of cv claim is))) h in
    let fine : (i : String)
        → contains i claim.evidence_ids ≡ true
        → (check_item cv claim i).reason ≡ none =
      λ i c. reasons_of-nil cv claim is i none_found (contains-items claim i c) in
    (
      λ i c. check_item-none cv claim i (fine i c),
      λ i j a b n ci cj oi oj.
          same_origin cv claim i j a b one_device n ci cj
            (check_item-origin cv claim i a (fine i ci) oi)
            (check_item-origin cv claim j b (fine j cj) oj),
    )
