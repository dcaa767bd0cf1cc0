-- ===== src/Address.antt =====
-- cosmosaddr/cosmosaddr.go. The bech32 package, SHA-256 and base64 are not in the repository, and are
-- parameters.
use validator_health_collect.Base.{
  ◌<◌, All, length, ◌||◌, ltb, ◌&&◌, leb, ℕ, zero, suc, ◌≡◌, String, Bool, true, false, Option,
  some, inl, inr, Option-cases, List, [], ◌∷◌, arith,
}
use validator_health_collect.Base.Results.{Result, ok, ◌>>=◌, or_fail}
use validator_health_collect.Go.Text.{codes, to_upper}

-- github.com/cosmos/btcutil/bech32, sha256.Sum256, base64.StdEncoding and hex.EncodeToString.
pub record Codec : Type 0 where
  pub convert_bits : List ℕ → ℕ → ℕ → Bool → Option (List ℕ)
  pub bech32_encode : String → List ℕ → Option String
  pub bech32_decode : String → Option (String × List ℕ)
  pub sha256 : List ℕ → List ℕ
  pub base64_decode : String → Option (List ℕ)
  pub hex_encode : List ℕ → String

pub data AddressError : Type 0 where
  decoding_pubkey converting_bits encoding_bech32 decoding_bech32 converting_back : AddressError

abbrev pub address_len : ℕ
address_len = 20

-- sum[:n], and zeros where the sum is shorter than `n`
unfoldable pub first_bytes : ℕ → List ℕ → List ℕ
first_bytes zero bs = []
first_bytes (suc n) [] = 0 ∷ first_bytes n []
first_bytes (suc n) (b ∷ bs) = b ∷ first_bytes n bs

module _ (c : Codec) where
  unfoldable pub from_ed25519_pub_key : String → Result AddressError (List ℕ)
  from_ed25519_pub_key key = do
    raw ← or_fail (c.base64_decode key) decoding_pubkey
    ok (first_bytes address_len (c.sha256 raw))

  unfoldable pub hex_address : List ℕ → String
  hex_address addr = to_upper (c.hex_encode addr)

  unfoldable pub encode : String → List ℕ → Result AddressError String
  encode hrp bytes = do
    converted ← or_fail (c.convert_bits bytes 8 5 true) converting_bits
    or_fail (c.bech32_encode hrp converted) encoding_bech32

  unfoldable pub decode : String → Result AddressError (String × List ℕ)
  decode addr = do
    (hrp, converted) ← or_fail (c.bech32_decode addr) decoding_bech32
    bytes ← or_fail (c.convert_bits converted 5 8 false) converting_back
    ok (hrp, bytes)

  unfoldable pub reprefix : String → String → Result AddressError String
  reprefix addr new_hrp = do (hrp, bytes) ← decode addr; encode new_hrp bytes

  -- `consensusAddressFromPubKey` and `consensusHexFromPubKey` of collector/collector.go
  unfoldable pub consensus_address_from_pub_key : String → Result AddressError String
  consensus_address_from_pub_key key = do
    addr ← from_ed25519_pub_key key
    encode "cosmosvalcons" addr

  unfoldable pub consensus_hex_from_pub_key : String → Result AddressError String
  consensus_hex_from_pub_key key = do addr ← from_ed25519_pub_key key; ok (hex_address addr)

-- The prefixes that bech32 keeps as they are: not empty, printable ASCII, and not upper case.
unfoldable pub printable : List ℕ → Bool
printable [] = true
printable (x ∷ xs) =
    let rest = printable xs in leb 33 x && (leb x 126 && ((ltb x 65 || ltb 90 x) && rest))

unfoldable pub is_prefix : String → Bool
is_prefix hrp = ltb 0 (length (codes hrp)) && printable (codes hrp)

-- What the packages document. Bytes converted to groups of five bits, with padding, are such groups and
-- convert back; a text that was encoded from a prefix as above and from groups of five bits decodes to
-- them, however long it is; and a SHA-256 sum is 32 bytes.
pub record IsDocumented (c : Codec) : Type 0 where
  pub five_bits :
      (bytes fives : List ℕ)
      → All (λ b. b < 256) bytes
      → c.convert_bits bytes 8 5 true ≡ some fives
      → All (λ b. b < 32) fives × (c.convert_bits fives 5 8 false ≡ some bytes)
  pub decode_encode :
      (hrp : String) (fives : List ℕ) (addr : String)
      → is_prefix hrp ≡ true
      → All (λ b. b < 32) fives
      → c.bech32_encode hrp fives ≡ some addr
      → c.bech32_decode addr ≡ some (hrp, fives)
  pub sum_bytes : (d : List ℕ) → (length (c.sha256 d) ≡ 32) × All (λ b. b < 256) (c.sha256 d)

module _ (c : Codec) (laws : IsDocumented c) where
  -- An address that was encoded under a prefix as above decodes to its prefix and its bytes, and giving it another prefix is
  -- encoding the same bytes under that prefix.
  pub reprefix-encode :
      (hrp new_hrp addr : String) (bytes : List ℕ)
      → is_prefix hrp ≡ true
      → All (λ b. b < 256) bytes
      → encode c hrp bytes ≡ ok addr
      → (decode c addr ≡ ok (hrp, bytes)) × (reprefix c addr new_hrp ≡ encode c new_hrp bytes)
  unfolding encode decode reprefix
  reprefix-encode hrp new_hrp addr bytes fine all e =
      elim (Option-cases (c.convert_bits bytes 8 5 true)) [
        | inl q ↦ ground (arith, q)
        | inr (fives, q) ↦ elim (Option-cases (c.bech32_encode hrp fives)) [
          | inl r ↦ ground (arith, q, r)
          | inr (a, r) ↦
              let (small, back) = laws.five_bits bytes fives all q in
              let read = laws.decode_encode hrp fives a fine small r in
              ground (arith, q, r, back, read)
        ]
      ]
