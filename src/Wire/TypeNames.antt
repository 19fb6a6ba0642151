-- ===== src/Wire/TypeNames.antt =====
-- The tables of type names of internal/dns/message.go. `typeCodes` is built from `typeNames`,
-- whose names are all different, so the order in which the source walks the map does not show.
use shard_dns.Prelude.Text.{GoRuntime, to_upper, decimal}
use shard_dns.Prelude.{ℕ, ◌==◌, if◌then◌else◌, List, [], ◌∷◌, ◌++◌, Bytes, bytes_eq, codes, map}

-- The map `typeNames`.
abbrev pub type_names : List (ℕ × Bytes)
type_names =
    (1, codes "A")
    ∷ (2, codes "NS")
    ∷ (5, codes "CNAME")
    ∷ (6, codes "SOA")
    ∷ (13, codes "HINFO")
    ∷ (12, codes "PTR")
    ∷ (15, codes "MX")
    ∷ (16, codes "TXT")
    ∷ (28, codes "AAAA")
    ∷ (33, codes "SRV")
    ∷ (35, codes "NAPTR")
    ∷ (39, codes "DNAME")
    ∷ (41, codes "OPT")
    ∷ (43, codes "DS")
    ∷ (44, codes "SSHFP")
    ∷ (46, codes "RRSIG")
    ∷ (47, codes "NSEC")
    ∷ (48, codes "DNSKEY")
    ∷ (50, codes "NSEC3")
    ∷ (51, codes "NSEC3PARAM")
    ∷ (52, codes "TLSA")
    ∷ (257, codes "CAA")
    ∷ (252, codes "AXFR")
    ∷ (255, codes "ANY")
    ∷ []

-- The map `typeCodes`.
abbrev pub type_codes : List (Bytes × ℕ)
type_codes = map (λ e. (e.1, e.0)) type_names ++ ((codes "*", 255) ∷ [])

unfoldable pub find_name : ℕ → List (ℕ × Bytes) → Bytes → Bytes
find_name t [] missing = missing
find_name t ((c, n) ∷ rest) missing = if t == c then n else find_name t rest missing

-- A missing key gives the zero value.
unfoldable pub find_code : Bytes → List (Bytes × ℕ) → ℕ
unfolding bytes_eq
find_code n [] = 0
find_code n ((m, c) ∷ rest) = if bytes_eq n m then c else find_code n rest

unfoldable pub type_name : ℕ → Bytes
unfolding find_name decimal
type_name t = find_name t type_names (codes "TYPE" ++ decimal t)

unfoldable pub type_code : ⦃u : GoRuntime⦄ → Bytes → ℕ
unfolding find_code to_upper
type_code name = find_code (to_upper name) type_codes
