-- ===== src/Replica/Index.antt =====
-- What the indexes of a rebuilt replica hold, item by item of the overview.
use mathlib.Core.Path.{subst}
use mathlib.Core.List.{append-nil, append_assoc}
use openbao_plugin_secrets_o.Prelude.{
  String, Bool, true, false, Option, none, some, List, [], ◌∷◌, ◌++◌, ◌≡◌, ◌≢◌, refl, sym, str_eq,
  eq_iff, arith, if◌then◌else◌, Bool-cases, inl, inr,
}
use openbao_plugin_secrets_o.Prelude.Table.{
  Table, lookup, has, Distinct, lookup-insert, lookup-delete,
}
use openbao_plugin_secrets_o.Onepassword.{ItemOverview}
use openbao_plugin_secrets_o.Config.{Splitter}
use openbao_plugin_secrets_o.Replica.{
  Replica, strings_at, append_at, index_titles, SplitIndex, no_splits, settle, split_round,
  split_key, index_splits, collisions, rebuild_indexes,
}

-- The IDs of the overview whose entry passes the test, in the order of the map.
unfoldable pub ids_where : (ItemOverview → Bool) → Table ItemOverview → List String
ids_where p [] = []
ids_where p ((id, ov) ∷ m) = let rest = ids_where p m in if p ov then id ∷ rest else rest

abbrev pub has_title : String → ItemOverview → Bool
has_title title ov = str_eq ov.title title

abbrev pub has_split_key : Splitter → String → ItemOverview → Bool
has_split_key splitter key ov = str_eq (split_key splitter ov) key

strings_at-append_at :
    (k t s : String) (m : Table (List String))
    → strings_at (lookup t (append_at k s m))
      ≡ (if str_eq k t then strings_at (lookup t m) ++ s ∷ [] else strings_at (lookup t m))
unfolding append_at
strings_at-append_at k t s m =
    ground (arith, lookup-insert k t (strings_at (lookup k m) ++ s ∷ []) m, eq_iff k t)

titles-index_titles :
    (title : String) (ov : Table ItemOverview) (titles : Table (List String))
    → strings_at (lookup title (index_titles ov titles))
      ≡ strings_at (lookup title titles) ++ ids_where (has_title title) ov
unfolding index_titles ids_where
titles-index_titles title [] titles = sym (append-nil (strings_at (lookup title titles)))
titles-index_titles title ((id, o) ∷ m) titles = ground (
  arith,
  titles-index_titles title m (append_at o.title id titles),
  strings_at-append_at o.title title id titles,
  append_assoc (strings_at (lookup title titles)) (id ∷ []) (ids_where (has_title title) m),
)

-- The one ID of a list of one.
abbrev pub sole : List String → Option String
sole [] = none
sole (id ∷ []) = some id
sole (id ∷ id' ∷ ids) = none

abbrev pub crowded : List String → Bool
crowded [] = false
crowded (id ∷ []) = false
crowded (id ∷ id' ∷ ids) = true

-- A key of the split index, with the items seen so far that split to it.
record Holds (s : SplitIndex) (key : String) (ids : List String) : Type 0 where
  path : lookup key s.paths ≡ sole ids
  poison : has key s.poisoned ≡ crowded ids

abbrev NoneOf : Table ItemOverview → List String → Type 0
NoneOf m [] = Unit {0}
NoneOf m (x ∷ xs) = (lookup x m ≡ none) × NoneOf m xs

settle-Holds :
    (p : Bool) (found : Option String) (k id : String) (s : SplitIndex) (key : String)
    (ids : List String)
    → has k s.poisoned ≡ p
    → lookup k s.paths ≡ found
    → ((x : String) → ids ≡ x ∷ [] → x ≢ id)
    → Holds s key ids
    → Holds (settle p found k id s) key (if str_eq k key then ids ++ id ∷ [] else ids)
settle-Holds true found k id s key [] hp hf fresh h = ground (arith, eq_iff k key)
settle-Holds true found k id s key (x ∷ []) hp hf fresh h = ground (arith, eq_iff k key)
settle-Holds true found k id s key (x ∷ y ∷ ids) hp hf fresh h = ground (arith, eq_iff k key)
settle-Holds false none k id s key [] hp hf fresh h =
    ground (arith, eq_iff k key, lookup-insert k key id s.paths)
settle-Holds false none k id s key (x ∷ []) hp hf fresh h =
    ground (arith, eq_iff k key, lookup-insert k key id s.paths)
settle-Holds false none k id s key (x ∷ y ∷ ids) hp hf fresh h =
    ground (arith, eq_iff k key, lookup-insert k key id s.paths)
settle-Holds false (some e) k id s key [] hp hf fresh h = ground (
  arith,
  eq_iff k key,
  eq_iff e id,
  lookup-insert k key id s.paths,
  lookup-delete k key s.paths,
  lookup-insert k key (tt {0}) s.poisoned,
)
settle-Holds false (some e) k id s key (x ∷ []) hp hf fresh h =
    let other = fresh x refl in
    ground (
      arith,
      other,
      eq_iff k key,
      eq_iff e id,
      lookup-insert k key id s.paths,
      lookup-delete k key s.paths,
      lookup-insert k key (tt {0}) s.poisoned,
    )
settle-Holds false (some e) k id s key (x ∷ y ∷ ids) hp hf fresh h = ground (
  arith,
  eq_iff k key,
  eq_iff e id,
  lookup-insert k key id s.paths,
  lookup-delete k key s.paths,
  lookup-insert k key (tt {0}) s.poisoned,
)

split_round-Holds :
    (k id title : String) (s : SplitIndex) (key : String) (ids : List String)
    → ((x : String) → ids ≡ x ∷ [] → x ≢ id)
    → Holds s key ids
    → Holds (split_round k id title s) key (if str_eq k key then ids ++ id ∷ [] else ids)
unfolding split_round
split_round-Holds k id title s key ids fresh h =
    settle-Holds (has k s.poisoned) (lookup k s.paths) k id
      (record s { titles_at_key = append_at k title s.titles_at_key }) key ids refl refl fresh
      (record { path = h.path; poison = h.poison })

NoneOf-append :
    (m : Table ItemOverview) (xs : List String) (id : String)
    → NoneOf m xs
    → lookup id m ≡ none
    → NoneOf m (xs ++ id ∷ [])
NoneOf-append m [] id n h = (h, tt)
NoneOf-append m (x ∷ xs) id n h = (n.0, NoneOf-append m xs id n.1 h)

NoneOf-tail :
    (id : String) (ov : ItemOverview) (m : Table ItemOverview) (xs : List String)
    → NoneOf ((id, ov) ∷ m) xs
    → NoneOf m xs
unfolding lookup
NoneOf-tail id ov m [] n = tt
NoneOf-tail id ov m (x ∷ xs) n = (ground arith, NoneOf-tail id ov m xs n.1)

NoneOf-head :
    (id : String) (ov : ItemOverview) (m : Table ItemOverview) (xs : List String) (x : String)
    → NoneOf ((id, ov) ∷ m) xs
    → xs ≡ x ∷ []
    → x ≢ id
unfolding lookup
NoneOf-head id ov m [] x n e = cc
NoneOf-head id ov m (y ∷ ys) x n e = ground (arith, eq_iff id y)

index_splits-Holds :
    (splitter : Splitter) (key : String) (m : Table ItemOverview) (s : SplitIndex)
    (ids : List String)
    → Distinct m
    → NoneOf m ids
    → Holds s key ids
    → Holds (index_splits splitter m s) key (ids ++ ids_where (has_split_key splitter key) m)
unfolding index_splits ids_where
index_splits-Holds splitter key [] s ids d n h = rw (append-nil ids) h
index_splits-Holds splitter key ((id, ov) ∷ m) s ids d n h =
    let k = split_key splitter ov in
    let next = split_round-Holds k id ov.title s key ids (λ x. NoneOf-head id ov m ids x n) h in
    elim (Bool-cases (str_eq k key)) [
      | inl same ↦ rw same (
          subst (Holds (index_splits splitter m (split_round k id ov.title s)) key)
            (append_assoc ids (id ∷ []) (ids_where (has_split_key splitter key) m))
            (index_splits-Holds splitter key m (split_round k id ov.title s) (ids ++ id ∷ []) d.1
              (NoneOf-append m ids id (NoneOf-tail id ov m ids n) d.0) (rw same at next)))
      | inr differ ↦ rw differ (
          index_splits-Holds splitter key m (split_round k id ov.title s) ids d.1
            (NoneOf-tail id ov m ids n) (rw differ at next))
    ]

-- After a rebuild a title has exactly the IDs of the items that bear it, duplicates included.
pub rebuild_indexes-titles :
    (splitter : Option Splitter) (r : Replica) (title : String)
    → strings_at (lookup title (rebuild_indexes splitter r).titles)
      ≡ ids_where (has_title title) r.overview
unfolding rebuild_indexes lookup
rebuild_indexes-titles none r title = titles-index_titles title r.overview []
rebuild_indexes-titles (some splitter) r title = titles-index_titles title r.overview []

-- After a rebuild the split index is one to one: a split path leads to an item exactly if that is
-- the only item whose title splits to it, and a path that two or more titles split to is reported
-- as a collision and leads nowhere, in whatever order the map was visited.
pub rebuild_indexes-split_paths :
    (splitter : Splitter) (r : Replica) (key : String)
    → Distinct r.overview
    → let ids = ids_where (has_split_key splitter key) r.overview in
      let s = index_splits splitter r.overview no_splits in
      (lookup key (rebuild_indexes (some splitter) r).split_paths ≡ sole ids)
      × (has key s.poisoned ≡ crowded ids)
      × ((rebuild_indexes (some splitter) r).split_collision ≡ collisions s)
unfolding rebuild_indexes
rebuild_indexes-split_paths splitter r key d =
    let h =
      index_splits-Holds splitter key r.overview no_splits [] d tt
        (unfold no_splits lookup in record { path = refl; poison = refl }) in
    (h.path, h.poison, refl)
