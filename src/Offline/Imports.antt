-- ===== src/Offline/Imports.antt =====
-- Imports of bundles, into a store that keeps what its documentation asks for.
use cofferwire.Base.{◌≡◌, ◌≢◌, ◌⊎◌, Bool, true, List, [], ◌∷◌, Bytes, Result, ok, err}
use cofferwire.Types.{QueueId, Principal, MessageId}
use cofferwire.Client.{StoreError}
use cofferwire.Crypto.Suite.{Primitives}
use cofferwire.Offline.{
  BundleFields, BundleError, open_bundle, ImportOutcome, ImportError, import_store, Role,
  already_imported, BundleStore, open_and_record_bundle, store_conflict, store_failure,
}

-- What the documentation of BundleStore and ImportOutcome asks for, of the bundles that a store knows:
-- it knows what it recorded and forgets nothing; a bundle that it knows is a duplicate, and where it
-- knows a bundle of one peer for a queue and role, a bundle of another peer is a conflict. A record may
-- fail at any time.
pub record StoreLaws {W : Type 0} (record_bundle : BundleStore W) : Type 1 where
  pub known : W → QueueId → Role → Principal → MessageId → Bool
  pub recorded_known :
      (q : QueueId) (r : Role) (peer : Principal) (b : MessageId) (w w' : W) (o : ImportOutcome)
      → record_bundle q r peer b w ≡ (ok o, w')
      → known w' q r peer b ≡ true
  pub stays_known :
      (q q' : QueueId) (r r' : Role) (peer peer' : Principal) (b b' : MessageId) (w : W)
      → known w q r peer b ≡ true
      → known (record_bundle q' r' peer' b' w).1 q r peer b ≡ true
  pub duplicate :
      (q : QueueId) (r : Role) (peer : Principal) (b : MessageId) (w : W)
      → known w q r peer b ≡ true
      → ((record_bundle q r peer b w).0 ≡ ok already_imported)
        ⊎ ((x : StoreError) × ((record_bundle q r peer b w).0 ≡ err (store_failure x)))
  pub conflict :
      (q : QueueId) (r : Role) (peer other : Principal) (b b' : MessageId) (w : W)
      → known w q r peer b ≡ true
      → peer ≢ other
      → ((record_bundle q r other b' w).0 ≡ err store_conflict)
        ⊎ ((x : StoreError) × ((record_bundle q r other b' w).0 ≡ err (store_failure x)))

module _ (p : Primitives) {W : Type 0} (record_bundle : BundleStore W)
    (laws : StoreLaws record_bundle) where
  -- What an import that succeeds was: a bundle that opens, and its record in the store.
  record Imports (t : p.SecretKey) (importer exporter : Principal) (key bytes : Bytes) (w w' : W)
      (q : QueueId) (fields : BundleFields) (o : ImportOutcome) : Type 0 where
    bundle_id : MessageId
    opens : open_bundle p t importer exporter key bytes ≡ ok (q, bundle_id, fields)
    records : record_bundle q fields.role fields.peer_principal bundle_id w ≡ (ok o, w')

  -- One call of open_and_record_bundle.
  pub record Import : Type 0 where
    pub importing : p.SecretKey
    pub importer : Principal
    pub exporter : Principal
    pub exporter_key : Bytes
    pub bundle : Bytes

  abbrev pub opens_to : Import → Result BundleError (QueueId × MessageId × BundleFields)
  opens_to i = open_bundle p i.importing i.importer i.exporter i.exporter_key i.bundle

  abbrev pub import_bundle :
      Import → W → Result ImportError (QueueId × BundleFields × ImportOutcome) × W
  import_bundle i =
      open_and_record_bundle p record_bundle i.importing i.importer i.exporter i.exporter_key
        i.bundle

  -- The store after further imports, whether they succeed or not.
  unfoldable pub import_all : List Import → W → W
  import_all [] w = w
  import_all (i ∷ rest) w = import_all rest (import_bundle i w).1

  -- An import that the store could not record.
  abbrev pub Unrecorded : Result ImportError (QueueId × BundleFields × ImportOutcome) → Type 0
  Unrecorded result = (x : StoreError) × (result ≡ err (import_store x))
