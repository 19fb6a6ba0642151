-- ===== src/Handler/Resolve/Rounds.antt =====
-- Every round of `resolve` keeps the header, whatever it answers.
use shard_dns.Handler.Lookup.{Match, cut_at, dname_at, found, lookup}
use shard_dns.Handler.Resolve.Frames.{Frames, Frames-set_rcode, Frames-clear_aa, Frames-sections}
use shard_dns.Handler.Resolve.{
  Hop, stop, next, follow, referral, synthesize, through_dname, answer_any, answer_soa,
  through_cname, answer_found, on_match, hop,
}
use shard_dns.Handler.Response.{
  Work, Done, done, failed, with_answers, answer, append_all, target_of, negative, answer_set,
  add_glue, add_additional, zone_for,
}
use shard_dns.Handler.{or_empty, wire_of, append_rr, filter_type, soa_rr}
use shard_dns.RData.Build.{rdata_names}
use shard_dns.Name.{pack_name}
use shard_dns.Prelude.Text.{GoRuntime, to_lower, trim_suffix}
use shard_dns.Wire.{Rr, Message, type_cname, type_dname, set_rcode, clear_aa}
use shard_dns.Zones.{StoreError, Zone, Record, Resolver}
use shard_dns.Prelude.{
  ℕ, Bool, true, false, not, ◌&&◌, ◌||◌, Option, none, some, List, [], ◌∷◌, ◌++◌, arith, Bytes,
  bytes_eq, is_empty, Outcome, ok, err, Outcome-cases, inl, inr, if◌then◌else◌, ◌==◌, Bool-cases,
  ltb, length,
}

abbrev pub DoneOk : Message → Done → Type 0
DoneOk base (done w) = Frames base w.resp
DoneOk base (failed w) = Frames base w.resp

abbrev pub HopOk : Message → Hop → Type 0
HopOk base (stop d) = DoneOk base d
HopOk base (next zone name w) = Frames base w.resp

module _ (base : Message) where
  if-Frames :
      (b : Bool) (w w' : Work)
      → Frames base w.resp
      → Frames base w'.resp
      → Frames base (if b then w else w').resp
  if-Frames true w w' f f' = f
  if-Frames false w w' f f' = f'

  if-HopOk :
      (b : Bool) (h h' : Hop) → HopOk base h → HopOk base h' → HopOk base (if b then h else h')
  if-HopOk true h h' f f' = f
  if-HopOk false h h' f f' = f'

  sections :
      (w : Work) (an ns ar : List Rr)
      → Frames base w.resp
      → Frames base (record (w.resp) { answers = an; authority = ns; additional = ar })
  sections w = Frames-sections base w.resp

  negative-Frames :
      (w : Work) (zone : Zone) (exists : Bool)
      → Frames base w.resp
      → Frames base (negative w zone exists).resp
  unfolding negative
  negative-Frames w zone exists f =
      let w' = if exists then w else record w { resp = set_rcode w.resp 3 } in
      let f' = if-Frames exists w _ f (Frames-set_rcode base w.resp 3 f (omega arith)) in
      elim (Outcome-cases (soa_rr zone)) [
        | inl (soa, e) ↦ rw (e, negative) (sections w' _ _ _ f')
        | inr (x, e) ↦ rw (e, negative) f'
      ]

  follow-HopOk :
      (z : Outcome StoreError (Option Zone)) (target : Bytes) (w : Work)
      → Frames base w.resp
      → HopOk base (follow z target w)
  unfolding follow
  follow-HopOk (ok none) target w f = f
  follow-HopOk (ok (some z)) target w f = f
  follow-HopOk (err e) target w f = f

module _ (base : Message) ⦃u : GoRuntime⦄ where
  answer_set-Frames :
      (w : Work) (owner : Bytes) (records : List Record)
      → Frames base w.resp
      → Frames base (answer_set w owner records).resp
  unfolding answer_set
  answer_set-Frames w owner records f = sections base w _ _ _ f

  module _ (r : Resolver) where
    add_glue-Frames :
        (w : Work) (zone : Zone) (records : List Record)
        → Frames base w.resp
        → Frames base (add_glue r w zone records).resp
    unfolding add_glue
    add_glue-Frames w zone records f = sections base w _ _ _ f

    add_additional-Frames :
        (w : Work) (zone : Zone) (qtype : ℕ) (records : List Record)
        → Frames base w.resp
        → Frames base (add_additional r w zone qtype records).resp
    unfolding add_additional
    add_additional-Frames w zone qtype records f =
        if-Frames base _ (add_glue r w zone records) w (add_glue-Frames w zone records f) f

    referral-HopOk :
        (zone : Zone) (at : Bytes) (cut : List Record) (w : Work)
        → Frames base w.resp
        → HopOk base (referral r zone at cut w)
    unfolding referral
    referral-HopOk zone at cut w f =
        let w' : Work = record w {
          resp = record (clear_aa w.resp) { authority = append_all w.resp.authority at cut };
        } in
        add_glue-Frames w' zone cut
          (Frames-sections base (clear_aa w.resp) _ _ _ (Frames-clear_aa base w.resp f))

    synthesize-HopOk :
        (owner to : Bytes) (d : Record) (w : Work)
        → Frames base w.resp
        → HopOk base (synthesize r owner to d w)
    unfolding synthesize
    synthesize-HopOk owner to d w f = elim (Bool-cases (ltb 253 (length to))) [
      | inl e ↦ rw (e, synthesize) (Frames-set_rcode base w.resp 2 f (omega arith))
      | inr e ↦ elim (Outcome-cases (pack_name [] to)) [
        | inl (cname, k) ↦
            rw (e, k, synthesize) (follow-HopOk base (zone_for r to) to _ (sections base w _ _ _ f))
        | inr (x, k) ↦ rw (e, k, synthesize) f
      ]
    ]

    through_dname-HopOk :
        (name owner at : Bytes) (d : Record) (w : Work)
        → Frames base w.resp
        → HopOk base (through_dname r name owner at d w)
    unfolding through_dname
    through_dname-HopOk name owner at d w f =
        let w' = with_answers w (append_rr w.resp.answers at d) in
        let f' = sections base w w'.resp.answers w.resp.authority w.resp.additional f in
        let target = rdata_names type_dname (or_empty (wire_of d)) in
        let to = trim_suffix name (b'.' ∷ at) ++ (b'.' ∷ to_lower target) in
        if-HopOk base (is_empty target) (stop (done w')) (synthesize r owner to d w') f'
          (synthesize-HopOk owner to d w' f')

    soa-Frames :
        (zone : Zone) (w : Work)
        → Frames base w.resp
        → Frames base (elim (soa_rr zone) as (λ _. Work) [ ok soa ↦ answer w soa | err e ↦ w ]).resp
    soa-Frames zone w f = elim (Outcome-cases (soa_rr zone)) [
      | inl (soa, e) ↦ rw e (sections base w _ _ _ f)
      | inr (x, e) ↦ rw e f
    ]

    answer_any-HopOk :
        (zone : Zone) (apex : Bool) (owner : Bytes) (records : List Record) (exists : Bool)
        (w : Work)
        → Frames base w.resp
        → HopOk base (answer_any r zone apex owner records exists w)
    unfolding answer_any
    answer_any-HopOk zone apex owner records exists w f =
        let w1 =
          if apex
          then elim (soa_rr zone) as (λ _. Work) [ ok soa ↦ answer w soa | err e ↦ w ]
          else w in
        let w2 = answer_set w1 owner records in
        let f1 =
          if-Frames base apex
            (elim (soa_rr zone) as (λ _. Work) [ ok soa ↦ answer w soa | err e ↦ w ]) w
            (soa-Frames zone w f) f in
        let f2 = answer_set-Frames w1 owner records f1 in
        if-Frames base (is_empty w2.resp.answers) (negative w2 zone (exists || apex)) w2
          (negative-Frames base w2 zone (exists || apex) f2) f2

    answer_soa-HopOk :
        (zone : Zone) (w : Work) → Frames base w.resp → HopOk base (answer_soa r zone w)
    unfolding answer_soa
    answer_soa-HopOk zone w f = elim (Outcome-cases (soa_rr zone)) [
      | inl (soa, e) ↦ rw (e, answer_soa) (sections base w _ _ _ f)
      | inr (x, e) ↦ rw (e, answer_soa) f
    ]

    through_cname-HopOk :
        (owner : Bytes) (c : Record) (cs : List Record) (w : Work)
        → Frames base w.resp
        → HopOk base (through_cname r owner c cs w)
    unfolding through_cname
    through_cname-HopOk owner c cs w f =
        let f' = answer_set-Frames w owner (c ∷ cs) f in
        let w' = answer_set w owner (c ∷ cs) in
        let target = target_of type_cname c in
        let z = zone_for r target in
        if-HopOk base (is_empty target) (stop (done w')) (follow z target w') f'
          (follow-HopOk base z target w' f')

    cnames-HopOk :
        (owner : Bytes) (cnames : List Record) (nothing : Hop) (w : Work)
        → Frames base w.resp
        → HopOk base nothing
        → HopOk base
            (elim cnames as (λ _. Hop) [ [] ↦ nothing | c ∷ cs ↦ through_cname r owner c cs w ])
    cnames-HopOk owner [] nothing w f n = n
    cnames-HopOk owner (c ∷ cs) nothing w f n = through_cname-HopOk owner c cs w f

    answer_found-HopOk :
        (zone : Zone) (name owner : Bytes) (qtype : ℕ) (records : List Record) (exists : Bool)
        (w : Work)
        → Frames base w.resp
        → HopOk base (answer_found r zone name owner qtype records exists w)
    unfolding answer_found
    answer_found-HopOk zone name owner qtype records exists w f =
        let apex = bytes_eq name zone.name in
        let same = filter_type records qtype in
        let cnames = filter_type records type_cname in
        let nothing = stop (done (negative w zone (not (is_empty records) || exists || apex))) in
        let last = elim cnames as (λ _. Hop) [
          | [] ↦ nothing
          | c ∷ cs ↦ through_cname r owner c cs w
        ] in
        let with_same = stop (done (add_additional r (answer_set w owner same) zone qtype same)) in
        let fn = negative-Frames base w zone (not (is_empty records) || exists || apex) f in
        let fs =
          add_additional-Frames (answer_set w owner same) zone qtype same
            (answer_set-Frames w owner same f) in
        let h1 =
          if-HopOk base (qtype == type_cname) nothing last fn
            (cnames-HopOk owner cnames nothing w f fn) in
        let r1 = if qtype == type_cname then nothing else last in
        let h2 = if-HopOk base (not (is_empty same)) with_same r1 fs h1 in
        let r2 = if not (is_empty same) then with_same else r1 in
        let h3 =
          if-HopOk base (apex && qtype == 6) (answer_soa r zone w) r2 (answer_soa-HopOk zone w f)
            h2 in
        let r3 = if apex && qtype == 6 then answer_soa r zone w else r2 in
        if-HopOk base (qtype == 255) (answer_any r zone apex owner records exists w) r3
          (answer_any-HopOk zone apex owner records exists w f) h3

    on_match-HopOk :
        (zone : Zone) (name owner : Bytes) (qtype : ℕ) (w : Work) (m : Match)
        → Frames base w.resp
        → HopOk base (on_match r zone name owner qtype w m)
    unfolding on_match
    on_match-HopOk zone name owner qtype w (cut_at at cut) f = referral-HopOk zone at cut w f
    on_match-HopOk zone name owner qtype w (dname_at at d) f =
        through_dname-HopOk name owner at d w f
    on_match-HopOk zone name owner qtype w (found records exists) f =
        answer_found-HopOk zone name owner qtype records exists w f

    pub hop-HopOk :
        (zone : Zone) (name owner : Bytes) (qtype : ℕ) (w : Work)
        → Frames base w.resp
        → HopOk base (hop r zone name owner qtype w)
    unfolding hop
    hop-HopOk zone name owner qtype w f = elim (Outcome-cases (lookup r zone name qtype)) [
      | inl (m, e) ↦ rw (e, hop) (on_match-HopOk zone name owner qtype w m f)
      | inr (x, e) ↦ rw (e, hop) f
    ]
