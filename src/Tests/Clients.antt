-- ===== src/Tests/Clients.antt =====
-- The theorems of Cli at a concrete command line.
use shard_dns.Cli.Arguments.{
  Word, plain, address, secret, IsWord, typed, plains, last_address, last_secret,
  read_globals-typed,
}
use shard_dns.Cli.Listing.{connect, main_record_list}
use shard_dns.Cli.{Globals, kind_of, read_globals, shown_records, main}
use shard_dns.Node.Coherent.{quiet}
use shard_dns.Prelude.Int.{pos}
use shard_dns.Prelude.Text.{
  has_suffix, to_lower, trim_space, trim_suffix, trim_left, trim_ascii, is_space, is_ascii,
  lower_byte,
}
use shard_dns.Service.{internal}
use shard_dns.Store.Paging.{zone_rows}
use shard_dns.Store.ZoneTable.{zone_row}
use shard_dns.Store.{normalize_zone, collect_records}
use shard_dns.Tests.Answers.{ascii, example_zone}
use shard_dns.Tests.Stores.{tables}
use shard_dns.Prelude.{
  ◌<◌, false, none, some, List, [], ◌∷◌, ◌≡◌, refl, arith, bytes_eq, codes, length, select, All, ok,
  all,
}

-- `sharddns --token help record list -addr h example`
abbrev words : List Word
words =
    secret (codes "--token") (codes "help")
    ∷ plain (codes "record")
    ∷ plain (codes "list")
    ∷ address (codes "-addr") (codes "h")
    ∷ plain (codes "example")
    ∷ []

words-IsWord : All IsWord words
unfolding kind_of bytes_eq
words-IsWord = (refl, (refl, (refl, (refl, (refl, tt)))))

abbrev nothing_given : Globals
nothing_given = record { addr = []; token = []; args = [] }

read_globals-typed_example :
    read_globals nothing_given (typed words)
    ≡ ok (record {
      addr = last_address nothing_given.addr words;
      token = last_secret nothing_given.token words;
      args = plains words;
    })
read_globals-typed_example = read_globals-typed nothing_given words words-IsWord

words_given : plains words ≡ codes "record" ∷ codes "list" ∷ codes "example" ∷ []
unfolding plains
words_given = refl

zone_found :
    zone_row (normalize_zone ⦃u = ascii⦄ (codes "example")) tables.zones ≡ some example_zone
unfolding normalize_zone to_lower trim_space trim_suffix is_ascii trim_ascii trim_left is_space
    lower_byte has_suffix all zone_row bytes_eq
zone_found = refl

few_rows : length (zone_rows (normalize_zone ⦃u = ascii⦄ (codes "example")) tables.records) < 2
unfolding normalize_zone to_lower trim_space trim_suffix is_ascii trim_ascii trim_left is_space
    lower_byte has_suffix all zone_rows select bytes_eq
few_rows = omega arith

main_record_list_example :
    main
      (connect ⦃u = ascii⦄ internal
        (λ b. b)
        (λ i. quiet)
        (pos 9)
        tables
        (codes "example")
        (λ a b. false)
        (λ k. [])
        words)
      (λ k. [])
      2
      (λ args. none)
      (typed words)
      tables
    ≡ some (
      tables,
      shown_records (
          collect_records ⦃u = ascii⦄
            (zone_rows (normalize_zone ⦃u = ascii⦄ (codes "example")) tables.records)),
    )
main_record_list_example =
    main_record_list ⦃u = ascii⦄ internal (λ b. b) (λ i. quiet) (pos 9) tables (codes "example")
      (λ a b. false) (λ k. []) words 2 (λ args. none) words-IsWord words_given refl zone_found refl
      refl (omega arith, tt) (omega arith, tt) few_rows
