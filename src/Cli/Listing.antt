-- ===== src/Cli/Listing.antt =====
-- `record list` of cmd/sharddns/main.go at the service of internal/api/service.go.
use shard_dns.Cli.Served.{service_client, intercepted-bearer}
use mathlib.Core.List.{map-append}
use shard_dns.Cli.{
  Client, Ending, shown_records, ZoneFlags, died, list_pages, bearer, env_or, main, after_globals,
  command, record_command, record_list,
}
use shard_dns.Cli.Arguments.{
  Word, IsWord, typed, plains, last_address, last_secret, read_globals-typed,
}
use shard_dns.Prelude.Int.{ℤ, pos}
use shard_dns.Prelude.Text.{GoRuntime, decimal}
use shard_dns.Service.{Code, Reply, answered, page_size, after_tests, list_records_call}
use shard_dns.Store.Paging.{
  IsAscending, above, above-IsAscending, zone_rows, page_of, page_of_last, page_of_more,
  list_records_lem, next_page, select-IsAscending,
}
use shard_dns.Store.RecordTable.{token_value, after_id}
use shard_dns.Store.Untouched.{select-All}
use shard_dns.Store.Token.{after_id-decimal, is_empty-decimal}
use shard_dns.Store.ZoneTable.{zone_row, get_zone}
use shard_dns.Store.{Row, Tables, normalize_zone, scan_record, collect_records}
use shard_dns.Zones.{Zone, Record}
use shard_dns.Prelude.{
  ℕ, zero, suc, ◌-◌, ◌<◌, Bool, true, false, Option, some, List, [], ◌∷◌, ◌++◌, append_assoc, ◌≡◌,
  refl, sym, ap, ◌∙◌, arith, Bytes, bytes_eq, codes, is_empty, length, take, drop, take-append-drop,
  length-drop, All, Bool-cases, inl, inr, leb, Outcome, ok, err, map,
}

module _ {S A : Type 0} (left : ℕ) (show : List A → Ending)
    (ask : Bytes → S → S × Outcome Code (List A × Bytes)) (token : Bytes) (found : List A)
    (s : S) where
  -- What the client does with the answer for a page.
  abbrev after_page : S × Outcome Code (List A × Bytes) → Option (S × Ending)
  after_page (s', err c) = some (s', died)
  after_page (s', ok (more, token')) = elim (is_empty token') [
    | true ↦ some (s', show (found ++ more))
    | false ↦ list_pages left show ask token' (found ++ more) s'
  ]

  list_pages-after_page : list_pages (suc left) show ask token found s ≡ after_page (ask token s)
  unfolding list_pages
  list_pages-after_page = opened (ask token s)
    where
      opened :
          (p : S × Outcome Code (List A × Bytes))
          → (elim p.1 [
            | err c ↦ some (p.0, died)
            | ok (more, token') ↦ elim (is_empty token') [
              | true ↦ some (p.0, show (found ++ more))
              | false ↦ list_pages left show ask token' (found ++ more) p.0
            ]
          ])
            ≡ after_page p
      opened (s', err c) = refl
      opened (s', ok (more, token')) = refl

  -- The client at a page without a token, and at one with a token.
  list_pages_last :
      {s' : S} {more : List A}
      → ask token s ≡ (s', ok (more, []))
      → list_pages (suc left) show ask token found s ≡ some (s', show (found ++ more))
  list_pages_last e = list_pages-after_page ∙ ap after_page e

  list_pages_more :
      {s' : S} {more : List A} {token' : Bytes}
      → ask token s ≡ (s', ok (more, token'))
      → is_empty token' ≡ false
      → list_pages (suc left) show ask token found s
        ≡ list_pages left show ask token' (found ++ more) s'
  list_pages_more e full = list_pages-after_page ∙ ap after_page e ∙ rw (after_page, full) refl

zone_rows-IsAscending :
    (zone : Bytes) (rows : List Row) → IsAscending 0 rows → IsAscending 0 (zone_rows zone rows)
unfolding zone_rows
zone_rows-IsAscending zone rows h = select-IsAscending _ 0 rows h

zone_rows-All :
    (P : Row → Type 0) (zone : Bytes) (rows : List Row) → All P rows → All P (zone_rows zone rows)
unfolding zone_rows
zone_rows-All P zone rows h = select-All P _ rows h

-- What a page shows and what the others show.
collect_records-split :
    ⦃u : GoRuntime⦄
    → (n : ℕ) (shown : List Record) (rows : List Row) {others : List Row} → others ≡ drop n rows
    → (shown ++ collect_records (take n rows)) ++ collect_records others
      ≡ shown ++ collect_records rows
unfolding collect_records
collect_records-split n shown rows e =
    append_assoc shown (map scan_record (take n rows)) _
    ∙ ap (λ t. shown ++ t)
        (ap (λ t. map scan_record (take n rows) ++ map scan_record t) e
          ∙ sym (map-append scan_record (take n rows) (drop n rows))
          ∙ ap (map scan_record) (take-append-drop n rows))

module _ ⦃u : GoRuntime⦄ (failed : Code) (md5 : Bytes → Bytes) (faults : ℕ → ℕ → Bool) (now : ℤ)
    (db : Tables) (zone : Bytes) where
  -- What the service answers to a request for a page.
  list_records_call_lem :
      (after : Bytes) (k : ℕ) {z : Zone}
      → is_empty zone ≡ false
      → zone_row (normalize_zone zone) db.zones ≡ some z
      → faults 0 0 ≡ false
      → faults 1 0 ≡ false
      → IsAscending 0 db.records
      → after_id after ≡ ok k
      → list_records_call failed md5 faults now db zone (pos 1000) after
        ≡ answered db [] (page_of 1000 (above k (zone_rows (normalize_zone zone) db.records)))
  unfolding list_records_call after_tests page_size get_zone
  list_records_call_lem after k there found up up' rising token =
      rw (there, up, found, list_records_lem (faults 1) db zone 1000 after k up' rising token) refl

  module _ (before : Bytes → Bytes → Bool) (token : Bytes) where
    abbrev client : Client Tables
    client = service_client failed md5 faults now before token (bearer token)

    abbrev found_rows : ℕ → List Row
    found_rows k = above k (zone_rows (normalize_zone zone) db.records)

    module _ {z : Zone} (there : is_empty zone ≡ false)
        (found : zone_row (normalize_zone zone) db.zones ≡ some z) (up : faults 0 0 ≡ false)
        (up' : faults 1 0 ≡ false) (rising : IsAscending 0 db.records)
        (small : All (λ r. r.id < 9223372036854775808) db.records) where
      asked :
          (after : Bytes) (k : ℕ)
          → after_id after ≡ ok k
          → client.list_records zone (pos 1000) after db ≡ (db, ok (page_of 1000 (found_rows k)))
      unfolding service_client
      asked after k t =
          intercepted-bearer token db
            (list_records_call failed md5 faults now db zone (pos 1000) after)
          ∙ ap (λ (r : Reply (List Record × Bytes)). (r.db, r.answer))
              (list_records_call_lem after k there found up up' rising t)

      -- A client that has the service's token shows what it has found, then all rows behind its token.
      list_pages_all :
          (pages k : ℕ) (after : Bytes) (shown : List Record)
          → length (found_rows k) < pages
          → after_id after ≡ ok k
          → list_pages pages shown_records (client.list_records zone (pos 1000)) after shown db
            ≡ some (db, shown_records (shown ++ collect_records (found_rows k)))
      list_pages_all zero k after shown le t = absurd (omega arith)
      list_pages_all (suc pages) k after shown le t =
          elim (Bool-cases (leb (length (found_rows k)) 1000)) [
            | inl e ↦
                list_pages_last pages shown_records (client.list_records zone (pos 1000)) after
                  shown db
                  (asked after k t
                    ∙ ap (λ (p : List Record × Bytes). (db, ok p))
                        (page_of_last 1000 (found_rows k) (ground arith)))
            | inr e ↦
                let long : 1000 < length (found_rows k) = ground arith in
                let (r, at_end, rest, id_fits) =
                  next_page 1000 k (λ r. r.id < 9223372036854775808)
                    (zone_rows (normalize_zone zone) db.records) (omega arith)
                    (zone_rows-IsAscending (normalize_zone zone) db.records rising)
                    (zone_rows-All _ (normalize_zone zone) db.records small) long in
                let page =
                  asked after k t
                  ∙ ap (λ (p : List Record × Bytes). (db, ok p))
                      (page_of_more 1000 (found_rows k) (omega arith) long at_end) in
                let fewer : length (found_rows r.id) < pages =
                  let n : length (found_rows r.id) ≡ length (found_rows k) - 1000 =
                    ap length rest ∙ length-drop 1000 (found_rows k) in
                  omega (arith, n) in
                list_pages_more pages shown_records (client.list_records zone (pos 1000)) after
                  shown db page (is_empty-decimal r.id)
                ∙ list_pages_all pages r.id (decimal r.id)
                    (shown ++ collect_records (take 1000 (found_rows k))) fewer
                    (after_id-decimal r.id id_fits)
                ∙ ap (λ t. some (db, shown_records t))
                    (collect_records-split 1000 shown (found_rows k) rest)
          ]

  module _ (before : Bytes → Bytes → Bool) (env : Bytes → Bytes) (words : List Word) where
    abbrev pub given_token : Bytes
    given_token = last_secret (env (codes "SHARDDNS_TOKEN")) words

    abbrev pub connect : Bytes → Option Bytes → Client Tables
    connect address header = service_client failed md5 faults now before given_token header

    -- The command that the words come to.
    main-list_pages :
        (pages : ℕ) (flags : List Bytes → Option ZoneFlags)
        → All IsWord words
        → plains words ≡ codes "record" ∷ codes "list" ∷ zone ∷ []
        → main connect env pages flags (typed words) db
          ≡ list_pages pages shown_records
              ((client before given_token).list_records zone (pos 1000))
              []
              []
              db
    unfolding main after_globals command record_command record_list bytes_eq
    main-list_pages pages flags h e =
        rw (main, read_globals-typed _ words h)
          (ap
            (λ args.
              after_globals connect pages flags db
                (last_address (env_or env (codes "SHARDDNS_ADDR") (codes "http://localhost:9053"))
                  words)
                given_token args)
            e)

    -- `record list` and a zone, typed with the client's flags wherever they stand, at a server whose
    -- token is the one that the client was given last: if the text of the zone is not empty, the zone
    -- exists, the database does not fail, the rows stand by rising identifiers below 2^63, and there
    -- may be more pages than the zone has rows, the client asks page after page and shows all records
    -- of the zone, each once and in their order.
    pub main_record_list :
        (pages : ℕ) (flags : List Bytes → Option ZoneFlags) {z : Zone}
        → All IsWord words
        → plains words ≡ codes "record" ∷ codes "list" ∷ zone ∷ []
        → is_empty zone ≡ false
        → zone_row (normalize_zone zone) db.zones ≡ some z
        → faults 0 0 ≡ false
        → faults 1 0 ≡ false
        → IsAscending 0 db.records
        → All (λ r. r.id < 9223372036854775808) db.records
        → length (zone_rows (normalize_zone zone) db.records) < pages
        → main connect env pages flags (typed words) db
          ≡ some (db, shown_records (collect_records (zone_rows (normalize_zone zone) db.records)))
    main_record_list pages flags h e there found up up' rising small enough =
        let all_rows : found_rows before given_token 0
            ≡ zone_rows (normalize_zone zone) db.records =
          above-IsAscending 0 _ (zone_rows-IsAscending (normalize_zone zone) db.records rising) in
        main-list_pages pages flags h e
        ∙ list_pages_all before given_token there found up up' rising small pages 0 [] []
            (omega (arith, ap length all_rows, enough)) (unfold after_id token_value in refl)
        ∙ ap (λ rows. some (db, shown_records (collect_records rows))) all_rows
