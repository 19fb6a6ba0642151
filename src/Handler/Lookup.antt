-- ===== src/Handler/Lookup.antt =====
-- `lookup` of internal/dns/handler.go: the records at a name, or the closest enclosing
-- delegation, DNAME or wildcard.
use shard_dns.Handler.{filter_type}
use shard_dns.Prelude.Text.{GoRuntime}
use shard_dns.Wire.{type_ns, type_ds, type_dname}
use shard_dns.Zones.{StoreError, Zone, Record, NameSet, exists, Resolver}
use shard_dns.Prelude.{
  ℕ, Bool, true, false, not, ◌&&◌, ◌||◌, Option, none, some, List, [], ◌∷◌, ◌++◌, ◌==◌,
  if◌then◌else◌, Bytes, codes, bytes_eq, is_empty, Outcome, ok, ◌>>=◌,
}

-- The struct `match`: a delegation, a DNAME, or the records at the name.
pub data Match : Type 0 where
  cut_at : Bytes → List Record → Match
  dname_at : Bytes → Record → Match
  found : List Record → Bool → Match

-- The names that the loop over `encloser` reaches, nearest first: what stands behind each dot.
unfoldable pub enclosers : Bytes → List Bytes
enclosers [] = []
enclosers (c ∷ s) = let rest = enclosers s in if c == b'.' then s ∷ rest else rest

-- What the loop leaves: a match, or the closest encloser.
pub data Climb : Type 0 where
  matched : Match → Climb
  closest : Bytes → Climb

module _ ⦃u : GoRuntime⦄ where
  -- What the records at an encloser below the zone's name decide.
  unfoldable pub cut_or_dname : Bytes → List Record → Option Match
  cut_or_dname encloser records = elim (filter_type records type_ns) [
    | n ∷ ns ↦ some (cut_at encloser (n ∷ ns))
    | [] ↦ elim (filter_type records type_dname) [ d ∷ ds ↦ some (dname_at encloser d) | [] ↦ none ]
  ]

  module _ (r : Resolver) (zone : Zone) where
    -- The loop, at the encloser `at`, with the enclosers still to come.
    unfoldable pub climb : Bytes → List Bytes → Outcome StoreError Climb
    climb here [] = ok (closest here)
    climb here (e ∷ es) =
        let further = climb e es in
        let step = λ (set : NameSet).
          if bytes_eq e zone.name then ok (closest e) else elim (cut_or_dname e set.records) [
            | some m ↦ ok (matched m)
            | none ↦ if exists set then ok (closest e) else further
          ] in
        if bytes_eq here zone.name then ok (closest here) else (r.lookup_name zone.name e >>= step)

    -- The wildcard below the closest encloser.
    unfoldable pub wildcard : Climb → Outcome StoreError Match
    wildcard (matched m) = ok m
    wildcard (closest e) = r.lookup_name zone.name (codes "*." ++ e) >>= λ set.
        ok (if is_empty set.records then found [] false else found set.records true)

    -- The answer where the name itself has records.
    unfoldable pub at_name : Bytes → ℕ → List Record → Match
    at_name name qtype records =
        let ns = filter_type records type_ns in
        if not (bytes_eq name zone.name) && not (qtype == type_ds) && not (is_empty ns)
        then cut_at name ns
        else found records true

    unfoldable pub lookup : Bytes → ℕ → Outcome StoreError Match
    lookup name qtype = r.lookup_name zone.name name >>= λ set.
        if not (is_empty set.records)
        then ok (at_name name qtype set.records)
        else if set.has_children || bytes_eq name zone.name
        then ok (found [] true)
        else (climb name (enclosers name) >>= wildcard)
