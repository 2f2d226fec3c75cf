-- ===== src/Core/Chain/Codec.antt =====
-- Chain ids are read back as written, and an unknown chain tag is refused.
use rgk.Prelude.{◌≡◌, some, refl, arith, [], ◌∷◌}
use rgk.Core.Chain.{
  KaspaChainId, kaspa_mainnet, chain_tag, chain_as_u8, chain_from_tag, decode_chain,
}
use rgk.Core.Error.{unknown_chain}
use rgk.Core.Encoding.Codec.{IsCodec}
use rgk.Core.Encoding.Tagged.{IsTagged, tagged-IsCodec}

pub chain_from_tag-chain_as_u8 : (c : KaspaChainId) → chain_from_tag (chain_as_u8 c) ≡ some c
unfolding chain_from_tag chain_as_u8
chain_from_tag-chain_as_u8 kaspa_mainnet = refl
chain_from_tag-chain_as_u8 _ = refl

chain_tags : IsTagged chain_tag chain_as_u8 chain_from_tag unknown_chain
unfolding chain_from_tag chain_as_u8
chain_tags = record {
  small = λ c. ground arith;
  known = chain_from_tag-chain_as_u8;
  only = λ v c e. ground arith;
}

pub chain-IsCodec : IsCodec (λ c. Unit {0}) (λ c. chain_tag ∷ chain_as_u8 c ∷ []) decode_chain
unfolding decode_chain
chain-IsCodec =
    tagged-IsCodec chain_tag chain_as_u8 chain_from_tag unknown_chain (omega arith) chain_tags
