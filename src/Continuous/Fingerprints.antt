-- ===== src/Continuous/Fingerprints.antt =====
-- `observation_fingerprint`, `evidence_hash` and `prepare_findings` of
-- src/cryptohawk/storage/continuous.py. The digests of encoded payloads (hashlib, json) are the
-- functions of `Digests`; `metadata` of the evidence is left out.
use crypto_hawk.Continuous.Records.{DriftEvent}
use crypto_hawk.Prelude.{
  ℕ, Option, none, some, List, [], ◌∷◌, Text, strip, lower, Table, lookup, put, ltb, leb,
  if◌then◌else◌,
}
use crypto_hawk.Domain.Models.{CryptoAssetType, Primitive, Evidence}
use crypto_hawk.Domain.Findings.{Finding}

pub record FingerprintPayload : Type 0 where
  pub asset_id : ℕ
  pub crypto_asset_type : CryptoAssetType
  pub algorithm : Text
  pub family : Text
  pub primitive : Primitive
  pub parameter_set : Option Text
  pub key_size : Option ℕ
  pub protocol_version : Option Text
  pub source : Text
  pub locator : Option Text
  pub line : Option ℕ

pub record EvidencePayload : Type 0 where
  pub evidence : Evidence
  pub parameter_set : Option Text
  pub key_size : Option ℕ
  pub protocol_version : Option Text
  pub confidence : ℕ

-- The digests, of a payload, of an observation in a scan and of a list of fingerprints; and the
-- random identifier (uuid4) that an event was stored with, of which only the order is used.
pub record Digests : Type 0 where
  pub of_fingerprint : FingerprintPayload → ℕ
  pub of_evidence : EvidencePayload → ℕ
  pub of_observation : ℕ → ℕ → ℕ
  pub of_set : List ℕ → ℕ
  pub event_id : DriftEvent → ℕ

unfoldable pub fingerprint_payload : Finding → FingerprintPayload
fingerprint_payload f =
    let o = f.observation in
    record {
      asset_id = o.asset_id;
      crypto_asset_type = o.crypto_asset_type;
      algorithm = lower (strip o.algorithm);
      family = lower (strip o.family);
      primitive = o.primitive;
      parameter_set = o.parameter_set;
      key_size = o.key_size;
      protocol_version = o.protocol_version;
      source = lower (strip o.evidence.source);
      locator = o.evidence.locator;
      line = o.evidence.line;
    }

unfoldable pub evidence_payload : Finding → EvidencePayload
evidence_payload f =
    let o = f.observation in
    record {
      evidence = o.evidence;
      parameter_set = o.parameter_set;
      key_size = o.key_size;
      protocol_version = o.protocol_version;
      confidence = o.confidence;
    }

-- `sorted(selected)`: the entries in the order of their keys.
unfoldable pub insert_entry : ℕ → Finding → Table Finding → Table Finding
insert_entry key f [] = (key, f) ∷ []
insert_entry key f ((j, g) ∷ rest) =
    if leb key j then (key, f) ∷ (j, g) ∷ rest else (j, g) ∷ insert_entry key f rest

unfoldable pub sort_entries : Table Finding → Table Finding
sort_entries [] = []
sort_entries ((key, f) ∷ rest) = insert_entry key f (sort_entries rest)

-- `current is None or finding.risk.score > current.risk.score`
unfoldable pub keep_higher : ℕ → Finding → Table Finding → Table Finding
keep_higher key f selected = elim (lookup key selected) [
  | none ↦ put key f selected
  | some current ↦ if ltb current.risk.score f.risk.score then put key f selected else selected
]

module _ (h : Digests) where
  unfoldable pub observation_fingerprint : Finding → ℕ
  observation_fingerprint f = h.of_fingerprint (fingerprint_payload f)

  unfoldable pub evidence_hash : Finding → ℕ
  evidence_hash f = h.of_evidence (evidence_payload f)

  unfoldable pub select : List Finding → Table Finding → Table Finding
  select [] selected = selected
  select (f ∷ fs) selected = select fs (keep_higher (observation_fingerprint f) f selected)

  -- The finding with the identifier of its observation in the scan.
  unfoldable pub renamed : ℕ → ℕ → Finding → Finding
  renamed job fingerprint f = record {
    observation = record f.observation { id = h.of_observation job fingerprint };
    risk = record f.risk { observation_id = h.of_observation job fingerprint };
  }

  unfoldable pub rename_all : ℕ → Table Finding → List Finding
  rename_all job [] = []
  rename_all job ((fingerprint, f) ∷ rest) = renamed job fingerprint f ∷ rename_all job rest

  unfoldable pub prepare_findings : ℕ → List Finding → List Finding
  prepare_findings job findings = rename_all job (sort_entries (select findings []))

  -- `{self.observation_fingerprint(finding): finding for finding in prepared}`
  unfoldable pub by_fingerprint : List Finding → Table Finding → Table Finding
  by_fingerprint [] current = current
  by_fingerprint (f ∷ fs) current = by_fingerprint fs (put (observation_fingerprint f) f current)
