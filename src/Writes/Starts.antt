-- ===== src/Writes/Starts.antt =====
-- How a write begins, and that what stops it is no answer of a write.
use openbao_plugin_secrets_o.Prelude.{
  String, Bool, true, List, [], ◌∷◌, ◌≡◌, ◌≢◌, arith, Bool-cases, Option-cases, inl, inr, ◌⊎◌,
}
use openbao_plugin_secrets_o.Onepassword.{Item, Result-cases, SdkError, ItemResult}
use openbao_plugin_secrets_o.Client.{OpClient}
use openbao_plugin_secrets_o.Governor.{GovState, normal, rate_limited, auth_failed, manual, allow}
use openbao_plugin_secrets_o.Engine.{
  Engine, Factory, Outcome-cases, got, resolve_vault_address, ensure_client, EngineError, no_client,
}
use openbao_plugin_secrets_o.Writes.{
  WriteClock, Response, written, engine_error, not_writable, sole_result, failed_call, Begun, begun,
  stopped, no_item, is_write_vault, begin_client, ask_governor, refuse_write, begin_write,
  fetch_fresh,
}

-- An answer other than that an item was written.
abbrev pub IsNoWrite : Response → Type 0
IsNoWrite response = (out : Item) (warned : Bool) → response ≢ written out warned

refuse_write-IsNoWrite :
    {W : Type 0} (factory : Factory W) (s : GovState) → IsNoWrite (refuse_write factory s)
refuse_write-IsNoWrite factory auth_failed out warned = λ h. cc
refuse_write-IsNoWrite factory normal out warned = λ h. cc
refuse_write-IsNoWrite factory rate_limited out warned = λ h. cc

-- How a write begins, or why it does not.
abbrev pub IsBegun : {W : Type 0} → Factory W → Engine W → String → Begun W → Type 0
IsBegun factory e vault_addr (stopped response) = IsNoWrite response
IsBegun factory e vault_addr (begun vault_id client) =
    (resolve_vault_address e vault_addr ≡ got vault_id) × (is_write_vault factory e vault_id ≡ true)

module _ {W : Type 0} (factory : Factory W) (at : WriteClock) where
  begin_client-IsBegun :
      (e₀ : Engine W) (vault_addr vault_id : String) (e : Engine W)
      → resolve_vault_address e₀ vault_addr ≡ got vault_id
      → is_write_vault factory e₀ vault_id ≡ true
      → IsBegun factory e₀ vault_addr (begin_client factory at vault_id e).1
  unfolding begin_client
  begin_client-IsBegun e₀ vault_addr vault_id e good writable =
      elim (Outcome-cases (ensure_client factory at.clock e).1) [
        | inl (x, bad) ↦ rw (begin_client, bad) (λ out warned h. cc)
        | inr (c, built) ↦ rw (begin_client, built) (good, writable)
      ]

  ask_governor-IsBegun :
      (vault_addr vault_id : String) (e : Engine W)
      → resolve_vault_address e vault_addr ≡ got vault_id
      → is_write_vault factory e vault_id ≡ true
      → IsBegun factory e vault_addr (ask_governor factory at vault_id e).1
  ask_governor-IsBegun vault_addr vault_id e good writable =
      elim (Bool-cases (allow e.gate at.allowed vault_id manual).1) [
        | inr off ↦ rw off (refuse_write-IsNoWrite factory _)
        | inl on ↦ rw on (begin_client-IsBegun e vault_addr vault_id _ good writable)
      ]

  begin_write-leads :
      (vault_addr : String) (e : Engine W)
      → ((x : EngineError) × ((begin_write factory at vault_addr e).1 ≡ stopped (engine_error x)))
        ⊎ ((begin_write factory at vault_addr e).1 ≡ stopped (not_writable vault_addr))
        ⊎ ((id : String) × (resolve_vault_address e vault_addr ≡ got id)
            × (is_write_vault factory e id ≡ true)
            × ((begin_write factory at vault_addr e).1 ≡ (ask_governor factory at id e).1))
  unfolding begin_write
  begin_write-leads vault_addr e = elim (Option-cases e.config) [
    | inl missing ↦ inl (no_client, ground (arith, missing))
    | inr (cfg, configured) ↦ elim (Outcome-cases (resolve_vault_address e vault_addr)) [
      | inl (x, bad) ↦ inl (x, ground (arith, configured, bad))
      | inr (id, good) ↦ elim (Bool-cases (is_write_vault factory e id)) [
        | inr closed ↦ inr (inl (ground (arith, configured, good, closed)))
        | inl writable ↦ inr (inr (id, good, writable, ground (arith, configured, good, writable)))
      ]
    ]
  ]

  -- A write is begun only in a vault that the address leads to and that may be written.
  pub begin_write-IsBegun :
      (vault_addr : String) (e : Engine W)
      → IsBegun factory e vault_addr (begin_write factory at vault_addr e).1
  begin_write-IsBegun vault_addr e = elim (begin_write-leads vault_addr e) [
    | inl (x, stop) ↦ rw stop (λ out warned h. cc)
    | inr (inl stop) ↦ rw stop (λ out warned h. cc)
    | inr (inr (id, good, writable, same)) ↦
        rw same (ask_governor-IsBegun vault_addr id e good writable)
  ]

  sole_result-IsNoWrite :
      (id : String) (rs : List ItemResult) (response : Response)
      → sole_result factory id rs ≡ no_item response
      → IsNoWrite response
  sole_result-IsNoWrite id [] response h out warned w = ground (arith, h, w)
  sole_result-IsNoWrite id (r ∷ s ∷ rs) response h out warned w = ground (arith, h, w)
  sole_result-IsNoWrite id (r ∷ []) response h out warned w = ground (arith, h, w)

  failed_call-IsNoWrite : (x : SdkError) → IsNoWrite (failed_call factory x)
  failed_call-IsNoWrite x out warned = λ h. ground (arith, h)

  pub fetch_fresh-IsNoWrite :
      (client : OpClient W) (vault_id id : String) (e : Engine W) (response : Response)
      → (fetch_fresh factory at client vault_id id e).1 ≡ no_item response
      → IsNoWrite response
  unfolding fetch_fresh
  fetch_fresh-IsNoWrite client vault_id id e response h =
      elim (Result-cases (client.get_items vault_id (id ∷ []) e.remote).0) [
        | inl (x, bad) ↦
            let same : failed_call factory x ≡ response = ground (arith, h, bad) in
            rw (← same) (failed_call-IsNoWrite x)
        | inr (rs, good) ↦ sole_result-IsNoWrite id rs response (ground (arith, h, good))
      ]
