-- ===== src/Cli/Arguments.antt =====
-- The loop over the arguments in `main` of cmd/sharddns/main.go, against the words of a command line.
use shard_dns.Cli.{Globals, addr_flag, token_flag, other_arg, kind_of, read_globals}
use shard_dns.Prelude.{
  List, [], ◌∷◌, ◌++◌, append_assoc, append-nil, ◌≡◌, refl, sym, ap, ◌∙◌, Bytes, ok, All,
}

-- A word of the command line: an argument of the command, or a flag with its value.
pub data Word : Type 0 where
  plain : (a : Bytes) → Word
  address : (flag value : Bytes) → Word
  secret : (flag value : Bytes) → Word

abbrev pub IsWord : Word → Type 0
IsWord (plain a) = kind_of a ≡ other_arg
IsWord (address flag value) = kind_of flag ≡ addr_flag
IsWord (secret flag value) = kind_of flag ≡ token_flag

-- The words as they are typed.
unfoldable pub typed : List Word → List Bytes
typed [] = []
typed (plain a ∷ words) = a ∷ typed words
typed (address flag value ∷ words) = flag ∷ value ∷ typed words
typed (secret flag value ∷ words) = flag ∷ value ∷ typed words

unfoldable pub plains : List Word → List Bytes
plains [] = []
plains (plain a ∷ words) = a ∷ plains words
plains (address flag value ∷ words) = plains words
plains (secret flag value ∷ words) = plains words

-- The last address and the last token among the words.
unfoldable pub last_address : Bytes → List Word → Bytes
last_address def [] = def
last_address def (plain a ∷ words) = last_address def words
last_address def (address flag value ∷ words) = last_address value words
last_address def (secret flag value ∷ words) = last_address def words

unfoldable pub last_secret : Bytes → List Word → Bytes
last_secret def [] = def
last_secret def (plain a ∷ words) = last_secret def words
last_secret def (address flag value ∷ words) = last_secret def words
last_secret def (secret flag value ∷ words) = last_secret value words

read_globals-plain :
    (g : Globals) (a : Bytes) (rest : List Bytes)
    → kind_of a ≡ other_arg
    → read_globals g (a ∷ rest) ≡ read_globals (record g { args = g.args ++ a ∷ [] }) rest
unfolding read_globals
read_globals-plain g a [] e = rw (read_globals, e) refl
read_globals-plain g a (b ∷ rest) e = rw (read_globals, e) refl

-- The flags of the client are taken wherever they stand among the arguments, whatever their values
-- are; the last one of a kind counts, and the other arguments keep their order.
pub read_globals-typed :
    (g : Globals) (words : List Word)
    → All IsWord words
    → read_globals g (typed words)
      ≡ ok (record {
        addr = last_address g.addr words;
        token = last_secret g.token words;
        args = g.args ++ plains words;
      })
unfolding read_globals typed plains last_address last_secret
read_globals-typed g [] h = ap (λ t. ok (record g { args = t })) (sym (append-nil g.args))
read_globals-typed g (plain a ∷ words) h =
    read_globals-plain g a (typed words) h.0
    ∙ read_globals-typed (record g { args = g.args ++ a ∷ [] }) words h.1
    ∙ ap
        (λ t. ok (record {
          addr = last_address g.addr words;
          token = last_secret g.token words;
          args = t;
        }))
        (append_assoc g.args (a ∷ []) (plains words))
read_globals-typed g (address flag value ∷ words) h =
    rw (read_globals, h.0) (read_globals-typed (record g { addr = value }) words h.1)
read_globals-typed g (secret flag value ∷ words) h =
    rw (read_globals, h.0) (read_globals-typed (record g { token = value }) words h.1)
