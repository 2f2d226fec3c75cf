-- ===== src/Core/Chain.antt =====
-- crates/rgk-core/src/chain.rs: `KaspaChainId`.
pub mod Codec
use rgk.Prelude.{
  ℕ, ◌≡◌, refl, Bool, true, false, Option, none, some, String, List, [], ◌∷◌, codes, ◌==◌,
  if◌then◌else◌, ensure, ok_or, ◌≟◌, nat_eq, PartialEq, ℕ_discrete,
}
use rgk.Core.Error.{bad_domain_tag, unknown_chain}
use rgk.Core.Encoding.{Writer, ◌▸◌, write_u8, Decoder, ◌>>=◌, ◌>>◌, read_u8, lift, Canonical}

pub data KaspaChainId : Type 0 where
  kaspa_mainnet kaspa_testnet kaspa_simnet kaspa_devnet kaspa_local_toccata : KaspaChainId

unfoldable pub KaspaChainId-discrete : Discrete KaspaChainId
KaspaChainId-discrete = hlevel

instance abbrev pub chain_eq : PartialEq KaspaChainId
chain_eq = record { dec_eq = KaspaChainId-discrete }

-- `TAG`, 'K'
abbrev pub chain_tag : ℕ
chain_tag = 0x4b

abbrev pub all_chains : List KaspaChainId
all_chains = kaspa_mainnet ∷ kaspa_testnet ∷ kaspa_simnet ∷ kaspa_devnet ∷ kaspa_local_toccata ∷ []

unfoldable pub chain_domain_str : KaspaChainId → List ℕ
chain_domain_str kaspa_mainnet = codes "kaspa-mainnet"
chain_domain_str kaspa_testnet = codes "kaspa-testnet"
chain_domain_str kaspa_simnet = codes "kaspa-simnet"
chain_domain_str kaspa_devnet = codes "kaspa-devnet"
chain_domain_str kaspa_local_toccata = codes "kaspa-local-toccata"

unfoldable pub toccata_active_by_default : KaspaChainId → Bool
toccata_active_by_default kaspa_devnet = false
toccata_active_by_default _ = true

-- `self as u8`
unfoldable pub chain_as_u8 : KaspaChainId → ℕ
chain_as_u8 kaspa_mainnet = 0x01
chain_as_u8 kaspa_testnet = 0x02
chain_as_u8 kaspa_simnet = 0x03
chain_as_u8 kaspa_devnet = 0x04
chain_as_u8 kaspa_local_toccata = 0x05

unfoldable pub chain_from_tag : ℕ → Option KaspaChainId
chain_from_tag tag =
    if tag == 0x01
    then some kaspa_mainnet
    else if tag == 0x02
    then some kaspa_testnet
    else if tag == 0x03
    then some kaspa_simnet
    else if tag == 0x04
    then some kaspa_devnet
    else if tag == 0x05
    then some kaspa_local_toccata
    else none

unfoldable pub encode_chain : KaspaChainId → Writer → Writer
encode_chain c w = w ▸ write_u8 chain_tag ▸ write_u8 (chain_as_u8 c)

unfoldable pub decode_chain : Decoder KaspaChainId
decode_chain = read_u8 >>= λ tag.
    ensure (tag ≟ chain_tag) (bad_domain_tag chain_tag tag)
    >> (read_u8 >>= λ val. lift (ok_or (chain_from_tag val) (unknown_chain val)))

instance abbrev pub chain_canonical : Canonical KaspaChainId
chain_canonical = record { encode = encode_chain; decode = decode_chain }
