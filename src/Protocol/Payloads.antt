-- ===== src/Protocol/Payloads.antt =====
-- packages/receipt-core/src/protocol.ts: what the payload that an authority signs says of its event.
use submittedit.Common.{◌≡◌, ◌⊎◌, ◌∙◌, refl, arith, Option, none, some, inl, inr}
use submittedit.Text.Order.{text_eq_iff}
use submittedit.Result.{ok, root, prop, invert}
use submittedit.Host.{Host}
use submittedit.Types.{
  EventDetails, attempt, confirmation, acceptance, rejection, stage_of_details, authority_accepted,
  authority_rejected, AuthorityAcknowledgment, LifecycleEventEnvelope,
}
use submittedit.Types.Values.{core_value, envelope_value}
use submittedit.Schema.Envelope.{parse_event_envelope}
use submittedit.Protocol.{
  AuthoritySignaturePayload, acknowledgment_of, hash_event_core, parse_hashed_event_envelope,
  authority_payload_of, create_authority_signature_payload,
}

acknowledged_stage :
    (d : EventDetails) (a : AuthorityAcknowledgment)
    → acknowledgment_of d ≡ some a
    → (stage_of_details d ≡ authority_accepted) ⊎ (stage_of_details d ≡ authority_rejected)
acknowledged_stage (attempt d) a h = cc
acknowledged_stage (confirmation c) a h = cc
acknowledged_stage (acceptance b) a h = inl refl
acknowledged_stage (rejection b) a h = inr refl

module _ (host : Host) where
  parse_hashed_event_envelope-hash :
      (input event : LifecycleEventEnvelope)
      → parse_hashed_event_envelope host input ≡ ok event
      → hash_event_core host (core_value event.core) ≡ ok event.event_hash
  unfolding parse_hashed_event_envelope
  parse_hashed_event_envelope-hash input event h =
      invert (parse_event_envelope host (envelope_value input) (prop root "event")) _ h λ e read h.
        invert (hash_event_core host (core_value e.core)) _ h λ t hashed made.
          let same : e.event_hash ≡ t = (text_eq_iff e.event_hash t).0 (ground arith) in
          let is : e ≡ event = ground arith in rw (← is, same, hashed) refl

  -- The payload names the event's own hash, receipt and stage, and its stage is a decision.
  pub record IsBound (event : LifecycleEventEnvelope) (p : AuthoritySignaturePayload) : Type 0 where
    pub is_hash : hash_event_core host (core_value event.core) ≡ ok p.event_hash
    pub same_receipt : p.receipt_id ≡ event.core.receipt_id
    pub same_version : p.schema_version ≡ event.core.schema_version
    pub same_stage : p.stage ≡ stage_of_details event.core.details
    pub is_decision : (p.stage ≡ authority_accepted) ⊎ (p.stage ≡ authority_rejected)

  payload_lem :
      (event : LifecycleEventEnvelope) (found : Option AuthorityAcknowledgment)
      (p : AuthoritySignaturePayload)
      → hash_event_core host (core_value event.core) ≡ ok event.event_hash
      → acknowledgment_of event.core.details ≡ found
      → authority_payload_of host event found ≡ ok p
      → IsBound event p
  unfolding authority_payload_of
  payload_lem event none p hashed e h = cc
  payload_lem event (some a) p hashed e h = record {
    is_hash = hashed ∙ ground arith;
    same_receipt = ground arith;
    same_version = ground arith;
    same_stage = ground arith;
    is_decision = let at_end = acknowledged_stage event.core.details a e in ground arith;
  }

  -- If `createAuthoritySignaturePayload` returns a payload, then its event reads as an envelope whose
  -- core hashes to the payload's event hash, whose receipt, version and stage are the payload's, and
  -- whose stage is one of the two decisions of an authority.
  pub create_authority_signature_payload-IsBound :
      (input : LifecycleEventEnvelope) (p : AuthoritySignaturePayload)
      → create_authority_signature_payload host input ≡ ok p
      → (event : LifecycleEventEnvelope) × (parse_hashed_event_envelope host input ≡ ok event)
        × IsBound event p
  unfolding create_authority_signature_payload
  create_authority_signature_payload-IsBound input p h =
      invert (parse_hashed_event_envelope host input) _ h λ event read made. (
        event,
        read,
        payload_lem event (acknowledgment_of event.core.details) p
            (parse_hashed_event_envelope-hash input event read) refl made,
      )
