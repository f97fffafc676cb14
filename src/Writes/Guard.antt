-- ===== src/Writes/Guard.antt =====
-- What a write is held back by: `write_vaults` and the governor.
use openbao_plugin_secrets_o.Prelude.{
  ℕ, ◌<◌, ◌≤◌, leb, String, true, false, Option, none, some, List, ◌≡◌, refl, arith, Bool-cases,
  Option-cases, inl, inr, ◌⊎◌,
}
use openbao_plugin_secrets_o.Governor.{GovState, auth_failed, normal, rate_limited, allow, manual}
use openbao_plugin_secrets_o.Engine.{
  Engine, Factory, EngineError, no_client, Outcome-cases, got, resolve_vault_address,
}
use openbao_plugin_secrets_o.Fields.{FieldWrite}
use openbao_plugin_secrets_o.Fields.Body.{BodyError, Members, done, parse_field_writes}
use openbao_plugin_secrets_o.Governor.Admission.{Admits, allow-Admits}
use openbao_plugin_secrets_o.Fields.Body.Tables.{Parsed-cases}
use openbao_plugin_secrets_o.Writes.{
  WriteClock, Response, engine_error, not_writable, bad_body, value_required, unknown_category,
  write_auth_failed, deferred, refuse_write, Names, ItemWrite, stopped, is_write_vault, begin_write,
  ask_governor,
}
use openbao_plugin_secrets_o.Writes.Handlers.{
  category_of, write_parsed, path_item_write, path_item_delete, path_field_write,
}
use openbao_plugin_secrets_o.Governor.Status.{snapshot}

module _ {W : Type 0} (factory : Factory W) (at : WriteClock) (vault_addr : String)
    (e : Engine W) where
  -- A vault that may not be written: the address leads to none, or to one outside write_vaults.
  unfoldable pub NotWritable : Type 0
  NotWritable =
      (vault_id : String)
      → resolve_vault_address e vault_addr ≡ got vault_id
      → is_write_vault factory e vault_id ≡ false

  -- The answer to a write that was never begun.
  abbrev pub IsRefusal : Response → Type 0
  IsRefusal response =
      ((x : EngineError) × (response ≡ engine_error x)) ⊎ (response ≡ not_writable vault_addr)

  begin_write-not_writable :
      NotWritable
      → ((begin_write factory at vault_addr e).0 ≡ e)
        × ((response : Response) × ((begin_write factory at vault_addr e).1 ≡ stopped response)
            × IsRefusal response)
  unfolding begin_write NotWritable
  begin_write-not_writable n = elim (Option-cases e.config) [
    | inl missing ↦ (ground arith, (engine_error no_client, ground arith, inl (no_client, refl)))
    | inr (cfg, configured) ↦ elim (Outcome-cases (resolve_vault_address e vault_addr)) [
      | inl (x, bad) ↦ (ground arith, (engine_error x, ground arith, inl (x, refl)))
      | inr (vault_id, good) ↦
          let closed = n vault_id good in
          (ground arith, (not_writable vault_addr, ground arith, inr refl))
    ]
  ]

  -- The answer to an item write that was never begun.
  abbrev pub IsRefusedBody : ItemWrite → Response → Type 0
  IsRefusedBody settings response =
      ((x : BodyError) × (response ≡ bad_body x))
      ⊎ (response ≡ unknown_category settings.category)
      ⊎ IsRefusal response

  -- The answer to a field write that was never begun, which is first of all refused without a value.
  abbrev pub IsRefusedField : Option String → Response → Type 0
  IsRefusedField none response = response ≡ value_required
  IsRefusedField (some value) response = IsRefusal response

  field_write-not_writable :
      (names : Names) (fresh_id : ℕ → String) (n : ℕ) (rest : String) (value : Option String)
      (typ : String)
      → NotWritable
      → ((path_field_write factory names fresh_id n at vault_addr rest value typ e).0 ≡ e)
        × IsRefusedField value
            (path_field_write factory names fresh_id n at vault_addr rest value typ e).1
  unfolding path_field_write
  field_write-not_writable names fresh_id n rest none typ closed = (refl, refl)
  field_write-not_writable names fresh_id n rest (some value) typ closed =
      let (same, (response, stop, refusal)) = begin_write-not_writable closed in
      rw (path_field_write, stop, same) (refl, refusal)

  write_parsed-not_writable :
      (names : Names) (fresh_id : ℕ → String) (n : ℕ) (item_addr : String) (body : ItemWrite)
      → NotWritable
      → ((write_parsed factory names fresh_id n at vault_addr item_addr body e).0 ≡ e)
        × IsRefusedBody body
            (write_parsed factory names fresh_id n at vault_addr item_addr body e).1
  unfolding write_parsed
  write_parsed-not_writable names fresh_id n item_addr body closed =
      let (same, (response, stop, refusal)) = begin_write-not_writable closed in
      elim (Option-cases (category_of factory names fresh_id n body.category)) [
        | inl unknown ↦ rw (write_parsed, unknown) (refl, inr (inl refl))
        | inr (category, known) ↦ rw (write_parsed, known, stop, same) (refl, inr (inr refusal))
      ]

  -- No write reaches a vault outside `write_vaults`: whichever handler is called, the engine is as
  -- it was, 1Password is not asked, and the answer is a refusal (of an item's body or category, if
  -- these are bad already, or of a field's missing value).
  pub not_writable_is_untouched :
      (names : Names) (fresh_id : ℕ → String) (n : ℕ) (item_addr rest : String)
      (value : Option String) (typ : String) (raw : Members) (settings : ItemWrite)
      → NotWritable
      → (((path_item_delete factory at vault_addr item_addr e).0 ≡ e)
          × IsRefusal (path_item_delete factory at vault_addr item_addr e).1)
        × (((path_field_write factory names fresh_id n at vault_addr rest value typ e).0 ≡ e)
            × IsRefusedField value
                (path_field_write factory names fresh_id n at vault_addr rest value typ e).1)
        × (((path_item_write factory names fresh_id n at vault_addr item_addr raw settings e).0 ≡ e)
            × IsRefusedBody settings
                (path_item_write factory names fresh_id n at vault_addr item_addr raw settings e).1)
  unfolding path_item_delete path_item_write
  not_writable_is_untouched names fresh_id n item_addr rest value typ raw settings closed =
      let (same, (response, stop, refusal)) = begin_write-not_writable closed in
      (
        rw (path_item_delete, stop, same) (refl, refusal),
        field_write-not_writable names fresh_id n rest value typ closed,
        elim (Parsed-cases (parse_field_writes raw)) [
          | inl (x, wrong) ↦ rw (path_item_write, wrong) (refl, inl (x, refl))
          | inr (ws, right) ↦
              rw (path_item_write, right)
                (write_parsed-not_writable names fresh_id n item_addr
                  (record settings { writes = ws }) closed)
        ],
      )

  -- The answer to a write that the governor puts off, by the state that it finds.
  abbrev pub IsHeldAnswer : GovState → Response → Type 0
  IsHeldAnswer auth_failed response = response ≡ write_auth_failed
  IsHeldAnswer normal response = response ≡ deferred normal
  IsHeldAnswer rate_limited response =
      ((at.allowed < e.gate.resume_at) × (response ≡ deferred rate_limited))
      ⊎ ((e.gate.resume_at ≤ at.allowed) × (response ≡ deferred normal))

  put_off_state :
      (s : GovState) (vault_id : String)
      → e.gate.state ≡ s
      → IsHeldAnswer s (
          refuse_write factory
            (snapshot (allow e.gate at.allowed vault_id manual).0 at.allowed).1.state)
  unfolding allow snapshot
  put_off_state auth_failed vault_id h = ground (arith, h)
  put_off_state normal vault_id h = ground (arith, h)
  put_off_state rate_limited vault_id h = elim (Bool-cases (leb e.gate.resume_at at.allowed)) [
    | inl past ↦ inr (ground arith, ground (arith, h, past))
    | inr ahead ↦ inl (ground arith, ground (arith, h, ahead))
  ]

  no_config-not_writable :
      (vault_id : String) → e.config ≡ none → is_write_vault factory e vault_id ≡ false
  unfolding is_write_vault
  no_config-not_writable vault_id missing = ground (arith, missing)

  begin_write-asks :
      (vault_id : String)
      → resolve_vault_address e vault_addr ≡ got vault_id
      → is_write_vault factory e vault_id ≡ true
      → begin_write factory at vault_addr e ≡ ask_governor factory at vault_id e
  unfolding begin_write
  begin_write-asks vault_id good writable = elim (Option-cases e.config) [
    | inl missing ↦ absurd (ground (arith, writable, no_config-not_writable vault_id missing))
    | inr (cfg, configured) ↦ ground (arith, configured, good, writable)
  ]

  begin_write-put_off :
      (vault_id : String)
      → resolve_vault_address e vault_addr ≡ got vault_id
      → is_write_vault factory e vault_id ≡ true
      → ¬ Admits e.gate at.allowed vault_id manual
      → let (e', start) = begin_write factory at vault_addr e in
        (e' ≡ record e { gate = e'.gate })
        × ((response : Response) × (start ≡ stopped response) × IsHeldAnswer e.gate.state response)
  begin_write-put_off vault_id good writable held =
      elim (Bool-cases (allow e.gate at.allowed vault_id manual).1) [
        | inl on ↦ absurd (held ((allow-Admits e.gate at.allowed vault_id manual).0 on))
        | inr off ↦
            rw (begin_write-asks vault_id good writable, off)
              (refl, (_, refl, put_off_state e.gate.state vault_id refl))
      ]

  -- What a write that is put off comes to.
  abbrev pub IsTurnedAway : Engine W × Response → Type 0
  IsTurnedAway (e', response) =
      (e' ≡ record e { gate = e'.gate }) × IsHeldAnswer e.gate.state response

  -- A write to a vault that may be written is put off wherever the governor does not admit manual
  -- work for the vault, by each of the three handlers once what it is given is well formed (a value
  -- of the field; a body that can be read and a known category of the item). The configuration,
  -- the client, the replicas, the directory, the allowlist and 1Password are left as they were, and
  -- the answer is exact: that authentication has failed, that the engine is rate limited where its
  -- horizon lies ahead, and a deferral in the normal state otherwise.
  pub deferred_write_asks_nothing :
      (names : Names) (fresh_id : ℕ → String) (n : ℕ) (item_addr rest value typ : String)
      (raw : Members) (settings : ItemWrite) (ws : List FieldWrite) (category vault_id : String)
      → resolve_vault_address e vault_addr ≡ got vault_id
      → is_write_vault factory e vault_id ≡ true
      → ¬ Admits e.gate at.allowed vault_id manual
      → parse_field_writes raw ≡ done ws
      → category_of factory names fresh_id n settings.category ≡ some category
      → IsTurnedAway (path_item_delete factory at vault_addr item_addr e)
        × IsTurnedAway
            (path_field_write factory names fresh_id n at vault_addr rest (some value) typ e)
        × IsTurnedAway
            (path_item_write factory names fresh_id n at vault_addr item_addr raw settings e)
  unfolding path_item_delete path_field_write path_item_write write_parsed
  deferred_write_asks_nothing names fresh_id n item_addr rest value typ raw settings ws category
        vault_id good writable held right known =
      let (same, (response, stop, off)) = begin_write-put_off vault_id good writable held in
      (
        rw (path_item_delete, stop) (same, off),
        rw (path_field_write, stop) (same, off),
        rw (path_item_write, right, write_parsed, known, stop) (same, off),
      )
