-- ===== src/Engine/Vaults.antt =====
-- Which vaults a request can reach.
use openbao_plugin_secrets_o.Prelude.{
  String, true, none, some, List, [], ◌∷◌, ◌≡◌, refl, ap, eq_iff, arith, if◌then◌else◌, Bool-cases,
  Option-cases, inl, inr, ◌⊎◌,
}
use openbao_plugin_secrets_o.Prelude.Table.{Table, lookup, insert, has, lookup-insert}
use openbao_plugin_secrets_o.Onepassword.{VaultOverview, Result-cases}
use openbao_plugin_secrets_o.Config.{Config}
use openbao_plugin_secrets_o.Config.Rules.{Member}
use openbao_plugin_secrets_o.Engine.{
  Engine, Clock, Factory, got, vaults_titled, one_vault, titled, admit, allow_entries, directory_of,
  resolve_vault_address, ensure_client, Outcome-cases, refresh_vault_directory,
}

vaults_titled-In :
    (dir : Table VaultOverview) (title id : String) (ids : Table (Unit {0})) (rest : List String)
    → vaults_titled dir title ids ≡ id ∷ rest
    → has id ids ≡ true
unfolding vaults_titled lookup
vaults_titled-In dir title id [] rest e = absurd (ground arith)
vaults_titled-In dir title id ((j, u) ∷ ids) rest e =
    ground (arith, eq_iff j id, vaults_titled-In dir title id ids rest)

one_vault-got : (name id : String) (ids : List String) → one_vault name ids ≡ got id → ids ≡ id ∷ []
one_vault-got name id [] e = absurd (ground arith)
one_vault-got name id (x ∷ []) e = ground arith
one_vault-got name id (x ∷ y ∷ ids) e = absurd (ground arith)

-- A vault address leads only to a vault of the allowlist.
pub resolve_vault_address-allowed :
    {W : Type 0} (e : Engine W) (name id : String)
    → resolve_vault_address e name ≡ got id
    → has id e.allowlist ≡ true
unfolding resolve_vault_address
resolve_vault_address-allowed e name id h = elim (Option-cases e.directory) [
  | inl missing ↦ absurd (ground arith)
  | inr (dir, built) ↦ elim (Bool-cases (has name e.allowlist)) [
    | inl here ↦ ground arith
    | inr elsewhere ↦
        vaults_titled-In dir name id e.allowlist [] (one_vault-got name id _ (ground arith))
  ]
]

-- An entry of `vaults` that stands for the vault: its ID, or a title that is its alone.
abbrev pub Names : Table VaultOverview → String → String → Type 0
Names dir entry id = ((entry ≡ id) × (has id dir ≡ true)) ⊎ (titled entry dir ≡ id ∷ [])

has-insert :
    (id entry : String) (allow : Table (Unit {0}))
    → has id (insert entry tt allow) ≡ true
    → (has id allow ≡ true) ⊎ (entry ≡ id)
has-insert id entry allow h = ground (arith, lookup-insert entry id (tt {0}) allow, eq_iff entry id)

has-admit :
    (id entry : String) (ids : List String) (allow : Table (Unit {0})) (unresolved : List String)
    → has id (admit ids entry (allow, unresolved)).0 ≡ true
    → (has id allow ≡ true) ⊎ (ids ≡ id ∷ [])
has-admit id entry [] allow unresolved h = inl h
has-admit id entry (x ∷ []) allow unresolved h = elim (has-insert id x allow h) [
  | inl old ↦ inl old
  | inr same ↦ inr (ap (λ (s : String). s ∷ []) same)
]
has-admit id entry (x ∷ y ∷ ids) allow unresolved h = inl h

-- One round of the loop.
abbrev round :
    Table VaultOverview → String → Table (Unit {0}) × List String → Table (Unit {0}) × List String
round dir entry (allow, unresolved) =
    if has entry dir
    then (insert entry tt allow, unresolved)
    else admit (titled entry dir) entry (allow, unresolved)

has-round :
    (dir : Table VaultOverview) (id entry : String) (allow : Table (Unit {0}))
    (unresolved : List String)
    → has id (round dir entry (allow, unresolved)).0 ≡ true
    → (has id allow ≡ true) ⊎ Names dir entry id
has-round dir id entry allow unresolved h = elim (Bool-cases (has entry dir)) [
  | inl here ↦ elim (has-insert id entry allow (rw here at h)) [
    | inl old ↦ inl old
    | inr same ↦ inr (inl (same, rw (← same) here))
  ]
  | inr absent ↦ elim (has-admit id entry (titled entry dir) allow unresolved (rw absent at h)) [
    | inl old ↦ inl old
    | inr only ↦ inr (inr only)
  ]
]

allow_entries-named :
    (dir : Table VaultOverview) (entries : List String) (s : Table (Unit {0}) × List String)
    (id : String)
    → has id (allow_entries dir entries s).0 ≡ true
    → (has id s.0 ≡ true) ⊎ ((entry : String) × Member entry entries × Names dir entry id)
unfolding allow_entries
allow_entries-named dir [] s id h = inl h
allow_entries-named dir (entry ∷ entries) (allow, unresolved) id h =
    elim (allow_entries-named dir entries (round dir entry (allow, unresolved)) id h) [
      | inr (x, member, names) ↦ inr (x, inr member, names)
      | inl before ↦ elim (has-round dir id entry allow unresolved before) [
        | inl old ↦ inl old
        | inr names ↦ inr (entry, inl refl, names)
      ]
    ]

directory_built :
    {W : Type 0} (factory : Factory W) (at : Clock) (e : Engine W) (cfg : Config)
    → e.config ≡ some cfg
    → let (e', failure) = refresh_vault_directory factory at e in
      failure ≡ none
      → (dir : Table VaultOverview) × (e'.directory ≡ some dir)
        × (e'.allowlist ≡ (allow_entries dir cfg.vaults ([], [])).0)
unfolding refresh_vault_directory
directory_built factory at e cfg configured done =
    let (e', client) = ensure_client factory at e in
    elim (Outcome-cases client) [
      | inl (x, bad) ↦ absurd (ground arith)
      | inr (c, good) ↦ elim (Result-cases (c.list_vaults e'.remote).0) [
        | inl (x, bad) ↦ absurd (ground arith)
        | inr (ovs, listed) ↦ (directory_of ovs [], ground arith, ground arith)
      ]
    ]

-- After the directory is built, whatever vault an address leads to is one that the configuration
-- names in `vaults`: by its ID, which the directory has, or by a title that no other vault bears.
pub refresh_vault_directory-allowed :
    {W : Type 0} (factory : Factory W) (at : Clock) (e : Engine W) (cfg : Config) (name id : String)
    → e.config ≡ some cfg
    → let (e', failure) = refresh_vault_directory factory at e in
      failure ≡ none
      → resolve_vault_address e' name ≡ got id
      → (dir : Table VaultOverview) × (e'.directory ≡ some dir)
        × ((entry : String) × Member entry cfg.vaults × Names dir entry id)
unfolding refresh_vault_directory
refresh_vault_directory-allowed factory at e cfg name id configured done reached =
    let (dir, built, allowed) = directory_built factory at e cfg configured done in
    (
      dir,
      built,
      elim (allow_entries-named dir cfg.vaults ([], []) id
          (rw (← allowed) (resolve_vault_address-allowed _ name id reached))) [
            | inl nowhere ↦ absurd (unfold lookup in ground (arith, nowhere))
            | inr named ↦ named
          ],
    )
