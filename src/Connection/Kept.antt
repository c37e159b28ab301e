-- ===== src/Connection/Kept.antt =====
-- The decoding of replies keeps what the changes to the connection keep.
use mongo_hhvm_driver.Base.{
  ℕ, Option, none, some, List, Sure, Sure-value, >>=-Sure, Bool-cases, inl, inr, if◌then◌else◌,
}
use mongo_hhvm_driver.Base.Int.{ℤ}
use mongo_hhvm_driver.CLib.{Bytes, codes}
use mongo_hhvm_driver.Types.{NodeType, Version, Connection}
use mongo_hhvm_driver.Manager.Wire.{WireCheck}
use mongo_hhvm_driver.Bson.Write.{get_reqid}
use mongo_hhvm_driver.Bson.Fields.{find_as_int32, find_as_string, find_as_document, find_as_array}
use mongo_hhvm_driver.Connection.Effect.{Time}
use mongo_hhvm_driver.Connection.Reply.{Flags, read_wire, read_limits, read_flags, read_type}
use mongo_hhvm_driver.Connection.Tags.{tags_behind, read_tags}
use mongo_hhvm_driver.Connection.Discover.{Discovery, Verdict, discover}
use mongo_hhvm_driver.Connection.Decode.{
  Ismaster, stamped, after_tags, is_invalid, after_type, after_wire, decode,
}
use mongo_hhvm_driver.Connection.Version.{read_version, store_version}

-- The changes that the operations make to a connection keep the property.
pub record IsKept (P : Connection → Type 0) : Type 0 where
  pub reqid : (con : Connection) → P con → P (get_reqid con)
  pub pinged :
      (con : Connection) (t : ℕ) (ms : ℤ) → P con → P (record con { last_ping = t; ping_ms = ms })
  pub wire :
      (con : Connection) (min max : ℤ)
      → P con
      → P (record con { min_wire_version = min; max_wire_version = max })
  pub limits :
      (con : Connection) (bson message batch : ℤ)
      → P con
      → P (record con {
        max_bson_size = bson;
        max_message_size = message;
        max_write_batch_size = batch;
      })
  pub typed :
      (con : Connection) (type : NodeType) → P con → P (record con { connection_type = type })
  pub tagged : (con : Connection) (tags : List Bytes) → P con → P (record con { tags = tags })
  pub checked : (con : Connection) (t : ℤ) → P con → P (record con { last_ismaster = t })
  pub verified :
      (con : Connection) (t u : ℤ)
      → P con
      → P (record con { last_replcheck = t; last_ismaster = u })
  pub versioned :
      (con : Connection) (version : Version) → P con → P (record con { version = version })

module _ (P : Connection → Type 0) (kept : IsKept P) where
  read_wire-Sure : (buffer : Bytes) (con : Connection) → P con → Sure P (read_wire buffer con)
  unfolding read_wire
  read_wire-Sure buffer con h =
      >>=-Sure P (find_as_int32 buffer 4 (codes "minWireVersion")) _ (λ min e.
        >>=-Sure P (find_as_int32 buffer 4 (codes "maxWireVersion")) _
          (λ max e'. Sure.just _ (kept.wire con _ _ h)))

  read_limits-Sure : (buffer : Bytes) (con : Connection) → P con → Sure P (read_limits buffer con)
  unfolding read_limits
  read_limits-Sure buffer con h =
      >>=-Sure P (find_as_int32 buffer 4 (codes "maxBsonObjectSize")) _ (λ bson e.
        >>=-Sure P (find_as_int32 buffer 4 (codes "maxMessageSizeBytes")) _ (λ message e'.
          >>=-Sure P (find_as_int32 buffer 4 (codes "maxWriteBatchSize")) _
            (λ batch e''. Sure.just _ (kept.limits con _ _ _ h))))

  read_type-Sure :
      (buffer : Bytes) (flags : Flags) (con : Connection)
      → P con
      → Sure P (read_type buffer flags con)
  unfolding read_type
  read_type-Sure buffer flags con h =
      >>=-Sure P (if flags.ismaster then find_as_string buffer 4 (codes "msg") else some none) _
        (λ msg e. Sure.just _ (kept.typed con _ h))

  read_tags-Sure : (buffer : Bytes) (con : Connection) → P con → Sure P (read_tags buffer con)
  unfolding read_tags
  read_tags-Sure buffer con h =
      >>=-Sure P (find_as_document buffer 4 (codes "tags")) _ (λ document e.
        >>=-Sure P (tags_behind buffer document) _
          (λ tags e'. Sure.just _ (kept.tagged con tags h)))

  abbrev pub AndKeeps : Ismaster × Connection → Type 0
  AndKeeps r = P r.1

  stamped-Kept : (start : Time) (con : Connection) (v : Verdict) → P con → P (stamped start con v)
  stamped-Kept start con (Verdict.rejected message) h = h
  stamped-Kept start con Verdict.same_host h = kept.verified con _ _ h
  stamped-Kept start con Verdict.renamed h = kept.verified con _ _ h

  after_tags-Sure :
      (buffer : Bytes) (start : Time) (set : Option Bytes) (d : Option Discovery) (con : Connection)
      → P con
      → Sure AndKeeps (after_tags buffer start set d con)
  after_tags-Sure buffer start set none con h = Sure.just _ (kept.checked con _ h)
  after_tags-Sure buffer start set (some d) con h =
      >>=-Sure AndKeeps (discover buffer con set d) _
        (λ found e. Sure.just _ (stamped-Kept start con found.1 h))

  after_type-Sure :
      (buffer : Bytes) (start : Time) (set : Option Bytes) (d : Option Discovery) (con : Connection)
      → P con
      → Sure AndKeeps (after_type buffer start set d con)
  after_type-Sure buffer start set d con h = elim (Bool-cases (is_invalid con.connection_type)) [
    | inl bad ↦ rw bad (Sure.just _ h)
    | inr good ↦ rw good (
        >>=-Sure AndKeeps (read_tags buffer con) _ (λ tagged e.
          after_tags-Sure buffer start set d tagged
            (Sure-value P (read_tags buffer con) _ e (read_tags-Sure buffer con h))))
  ]

  after_wire-Sure :
      (buffer : Bytes) (start : Time) (d : Option Discovery) (con : Connection) (check : WireCheck)
      → P con
      → Sure AndKeeps (after_wire buffer start d con check)
  after_wire-Sure buffer start d con check h = elim (Bool-cases check.supported) [
    | inr bad ↦ rw bad (Sure.just _ h)
    | inl good ↦ rw good (
        >>=-Sure AndKeeps (read_limits buffer con) _ (λ limited e.
          let h₁ = Sure-value P (read_limits buffer con) _ e (read_limits-Sure buffer con h) in
          >>=-Sure AndKeeps (read_flags buffer) _ (λ flags e'.
            >>=-Sure AndKeeps (read_type buffer flags limited) _ (λ typed e''.
              after_type-Sure buffer start flags.set d typed (
                Sure-value P (read_type buffer flags limited) _ e''
                  (read_type-Sure buffer flags limited h₁))))))
  ]

  pub decode-Sure :
      (supports : ℤ → ℤ → WireCheck) (buffer : Bytes) (start : Time) (d : Option Discovery)
      (con : Connection)
      → P con
      → Sure AndKeeps (decode supports buffer start d con)
  unfolding decode
  decode-Sure supports buffer start d con h = >>=-Sure AndKeeps (read_wire buffer con) _ (λ wired e.
      after_wire-Sure buffer start d wired _
        (Sure-value P (read_wire buffer con) _ e (read_wire-Sure buffer con h)))

  pub store_version-Sure :
      (buffer : Bytes) (con : Connection) → P con → Sure P (store_version buffer con)
  unfolding store_version
  store_version-Sure buffer con h =
      >>=-Sure P (find_as_array buffer 4 (codes "versionArray")) _ (λ array e.
        >>=-Sure P (read_version buffer array con.version) _
          (λ version e'. Sure.just _ (kept.versioned con version h)))
