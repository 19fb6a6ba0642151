-- ===== src/Handler/Resolve/Fair.antt =====
-- The response codes of `resolve` of internal/dns/handler.go, and the look-ups behind an NXDOMAIN.
use shard_dns.Handler.Lookup.{found, dname_at, lookup}
use shard_dns.Handler.Resolve.{
  Hop, stop, next, follow, synthesize, through_dname, answer_any, answer_soa, through_cname,
}
use shard_dns.Handler.Response.{
  Work, Done, done, failed, with_answers, answer, negative, answer_set, target_of, zone_for,
  zone_result,
}
use shard_dns.Handler.{or_empty, wire_of, append_rr, filter_type, soa_rr}
use shard_dns.Name.{pack_name}
use shard_dns.Prelude.Text.{GoRuntime, to_lower, trim_suffix}
use shard_dns.RData.Build.{rdata_names}
use shard_dns.Wire.Flags.{set_rcode_flags, clear_aa_flags}
use shard_dns.Wire.{IsU16, Question, Message, type_cname, type_dname, set_rcode, clear_aa}
use shard_dns.Zones.{StoreError, not_found, conflict, failure, Zone, Record, Resolver}
use shard_dns.Prelude.{
  ℕ, ◌%◌, ◌<◌, Bool, true, false, ◌||◌, Option, none, some, List, [], ◌∷◌, ◌++◌, ltb, if◌then◌else◌,
  ◌≡◌, ◌≢◌, refl, sym, ◌∙◌, arith, Bytes, codes, length, is_empty, Bool-cases, Outcome-cases, inl,
  inr, ◌⊎◌, Outcome, ok, err,
}

-- The flags have another code than NXDOMAIN, or there is a reason for it.
abbrev pub IsFair : Type 0 → ℕ → Type 0
IsFair D f = (f < 65536) × ((f % 16 ≢ 3) ⊎ D)

pub map-IsFair : (D E : Type 0) (f : ℕ) → (D → E) → IsFair D f → IsFair E f
map-IsFair D E f g (small, inl other) = (small, inl other)
map-IsFair D E f g (small, inr d) = (small, inr (g d))

-- Another code than NXDOMAIN is fair.
pub set_rcode-IsFair :
    (D : Type 0) (m : Message) (code : ℕ)
    → IsU16 m.header.flags
    → code < 16
    → code ≢ 3
    → IsFair D (set_rcode m code).header.flags
set_rcode-IsFair D m code h small other =
    let f = set_rcode_flags m code h small in
    (omega (arith, f), inl (λ e. other (omega (arith, e, f))))

pub clear_aa-IsFair :
    (D : Type 0) (m : Message) → IsFair D m.header.flags → IsFair D (clear_aa m).header.flags
clear_aa-IsFair D m h =
    let f = clear_aa_flags m h.0 in
    let low : (clear_aa m).header.flags % 16 ≡ m.header.flags % 16 = omega (arith, f) in
    (
      omega (arith, f, h.0),
      elim h.1 [ inl other ↦ inl (λ e. other (sym low ∙ e)) | inr denied ↦ inr denied ],
    )

zone_result-some : (o : Outcome StoreError Zone) {z : Zone} → zone_result o ≡ ok (some z) → o ≡ ok z
unfolding zone_result
zone_result-some (ok y) h = cc
zone_result-some (err not_found) h = absurd cc
zone_result-some (err conflict) h = absurd cc
zone_result-some (err failure) h = absurd cc

module _ ⦃u : GoRuntime⦄ (r : Resolver) (q : Question) where
  -- The zones and names at which the question is looked up: its name in lower case, without a last
  -- dot, in the zone found for it; from a name without records of the type asked for, but with a
  -- CNAME, that record's target; and from a name below a DNAME, the name that takes its place.
  pub data IsReached : Zone → Bytes → Type 0 where
    asked :
        (zone : Zone)
        → r.find_zone (to_lower (trim_suffix q.name (codes "."))) ≡ ok zone
        → IsReached zone (to_lower (trim_suffix q.name (codes ".")))
    aliased :
        (zone : Zone) (name : Bytes) (records : List Record) (there : Bool) (c : Record)
        (cs : List Record) (zone' : Zone)
        → IsReached zone name
        → lookup r zone name q.qtype ≡ ok (found records there)
        → is_empty (filter_type records q.qtype) ≡ true
        → filter_type records type_cname ≡ c ∷ cs
        → r.find_zone (to_lower (rdata_names type_cname (or_empty (wire_of c)))) ≡ ok zone'
        → IsReached zone' (to_lower (rdata_names type_cname (or_empty (wire_of c))))
    redirected :
        (zone : Zone) (name at : Bytes) (d : Record) (zone' : Zone)
        → IsReached zone name
        → lookup r zone name q.qtype ≡ ok (dname_at at d)
        → r.find_zone (
            trim_suffix name (b'.' ∷ at)
            ++ (b'.' ∷ to_lower (rdata_names type_dname (or_empty (wire_of d)))))
          ≡ ok zone'
        → IsReached zone' (
            trim_suffix name (b'.' ∷ at)
            ++ (b'.' ∷ to_lower (rdata_names type_dname (or_empty (wire_of d)))))

  -- A look-up of the question at such a name finds nothing, not even that the name exists.
  abbrev pub IsDenied : Type 0
  IsDenied =
      (zone : Zone) × (name : Bytes) × (records : List Record) × IsReached zone name
      × (lookup r zone name q.qtype ≡ ok (found records false))

  abbrev pub IsFairDone : Done → Type 0
  IsFairDone (done w) = IsFair IsDenied w.resp.header.flags
  IsFairDone (failed w) = IsFair IsDenied w.resp.header.flags

  abbrev pub IsFairHop : Hop → Type 0
  IsFairHop (stop d) = IsFairDone d
  IsFairHop (next zone name w) = IsReached zone name × IsFair IsDenied w.resp.header.flags

  pub if-IsFairHop :
      (b : Bool) (h k : Hop)
      → IsFairHop h
      → (b ≡ false → IsFairHop k)
      → IsFairHop (if b then h else k)
  if-IsFairHop true h k a c = a
  if-IsFairHop false h k a c = c refl

  pub negative-IsFair :
      (w : Work) (zone : Zone) (there : Bool)
      → IsFair IsDenied w.resp.header.flags
      → (there ≡ false → IsDenied)
      → IsFair IsDenied (negative w zone there).resp.header.flags
  unfolding negative
  negative-IsFair w zone true h deny = elim (Outcome-cases (soa_rr zone)) [
    | inl (soa, e) ↦ rw (negative, e) h
    | inr (x, e) ↦ rw (negative, e) h
  ]
  negative-IsFair w zone false h deny =
      let f = set_rcode_flags w.resp 3 h.0 (omega arith) in
      let fair : IsFair IsDenied (set_rcode w.resp 3).header.flags =
        (omega (arith, f, h.0), inr (deny refl)) in
      elim (Outcome-cases (soa_rr zone)) [
        | inl (soa, e) ↦ rw (negative, e) fair
        | inr (x, e) ↦ rw (negative, e) fair
      ]

  pub follow-IsFairHop :
      (target : Bytes) (w : Work)
      → IsFair IsDenied w.resp.header.flags
      → ((zone : Zone) → r.find_zone target ≡ ok zone → IsReached zone target)
      → IsFairHop (follow (zone_for r target) target w)
  unfolding follow zone_for
  follow-IsFairHop target w h reach = by_zone (zone_result (r.find_zone target)) refl
    where
      by_zone :
          (o : Outcome StoreError (Option Zone))
          → zone_result (r.find_zone target) ≡ o
          → IsFairHop (follow o target w)
      by_zone (ok none) e = h
      by_zone (ok (some z)) e = (reach z (zone_result-some (r.find_zone target) e), h)
      by_zone (err x) e = h

  synthesize-IsFairHop :
      (owner to : Bytes) (d : Record) (w : Work)
      → IsFair IsDenied w.resp.header.flags
      → ((zone : Zone) → r.find_zone to ≡ ok zone → IsReached zone to)
      → IsFairHop (synthesize r owner to d w)
  unfolding synthesize
  synthesize-IsFairHop owner to d w h reach = elim (Bool-cases (ltb 253 (length to))) [
    | inl e ↦
        rw (e, synthesize)
          (set_rcode-IsFair IsDenied w.resp 2 h.0 (omega arith) (λ q. absurd (omega (arith, q))))
    | inr e ↦ elim (Outcome-cases (pack_name [] to)) [
      | inl (cname, k) ↦ rw (e, k, synthesize) (follow-IsFairHop to _ h reach)
      | inr (x, k) ↦ rw (e, k, synthesize) h
    ]
  ]

  pub through_dname-IsFairHop :
      (zone : Zone) (name owner at : Bytes) (d : Record) (w : Work)
      → IsFair IsDenied w.resp.header.flags
      → IsReached zone name
      → lookup r zone name q.qtype ≡ ok (dname_at at d)
      → IsFairHop (through_dname r name owner at d w)
  unfolding through_dname
  through_dname-IsFairHop zone name owner at d w h at_name e =
      let w' = with_answers w (append_rr w.resp.answers at d) in
      let target = rdata_names type_dname (or_empty (wire_of d)) in
      let to = trim_suffix name (b'.' ∷ at) ++ (b'.' ∷ to_lower target) in
      if-IsFairHop (is_empty target) (stop (done w')) (synthesize r owner to d w') h
        (λ _. synthesize-IsFairHop owner to d w' h (λ z. redirected zone name at d z at_name e))

  -- The answer to ANY, where the name does not exist only if it was denied.
  pub answer_any-IsFairHop :
      (zone : Zone) (apex : Bool) (owner : Bytes) (records : List Record) (there : Bool) (w : Work)
      → IsFair IsDenied w.resp.header.flags
      → (there ≡ false → IsDenied)
      → IsFairHop (answer_any r zone apex owner records there w)
  unfolding answer_any answer_set
  answer_any-IsFairHop zone apex owner records there w h deny =
      let w1 : Work =
        if apex
        then elim (soa_rr zone) as (λ _. Work) [ ok soa ↦ answer w soa | err e ↦ w ]
        else w in
      let w2 = answer_set w1 owner records in
      let h1 : IsFair IsDenied w1.resp.header.flags = elim (Bool-cases apex) [
        | inl a ↦ elim (Outcome-cases (soa_rr zone)) [
          | inl (soa, e) ↦ rw (a, e) h
          | inr (x, e) ↦ rw (a, e) h
        ]
        | inr a ↦ rw a h
      ] in
      if_fair (is_empty w2.resp.answers) (negative w2 zone (there || apex)) w2
        (negative-IsFair w2 zone (there || apex) h1 (λ e. deny (ground arith))) h1
    where
      if_fair :
          (b : Bool) (v w : Work)
          → IsFair IsDenied v.resp.header.flags
          → IsFair IsDenied w.resp.header.flags
          → IsFair IsDenied (if b then v else w).resp.header.flags
      if_fair true v w a c = a
      if_fair false v w a c = c

  pub answer_soa-IsFairHop :
      (zone : Zone) (w : Work)
      → IsFair IsDenied w.resp.header.flags
      → IsFairHop (answer_soa r zone w)
  unfolding answer_soa
  answer_soa-IsFairHop zone w h = elim (Outcome-cases (soa_rr zone)) [
    | inl (soa, e) ↦ rw (e, answer_soa) h
    | inr (x, e) ↦ rw (e, answer_soa) h
  ]

  pub cnames-IsFairHop :
      (owner : Bytes) (cnames : List Record) (nothing : Hop) (w : Work)
      → IsFair IsDenied w.resp.header.flags
      → ((c : Record) (cs : List Record) (z : Zone)
          → cnames ≡ c ∷ cs
          → r.find_zone (target_of type_cname c) ≡ ok z
          → IsReached z (target_of type_cname c))
      → IsFairHop nothing
      → IsFairHop
          (elim cnames as (λ _. Hop) [ [] ↦ nothing | c ∷ cs ↦ through_cname r owner c cs w ])
  unfolding through_cname answer_set
  cnames-IsFairHop owner [] nothing w h reach n = n
  cnames-IsFairHop owner (c ∷ cs) nothing w h reach n =
      let w' = answer_set w owner (c ∷ cs) in
      let target = target_of type_cname c in
      if-IsFairHop (is_empty target) (stop (done w')) (follow (zone_for r target) target w') h
        (λ _. follow-IsFairHop target w' h (λ z. reach c cs z refl))
