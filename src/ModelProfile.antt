-- ===== src/ModelProfile.antt =====
-- include/model_profile.h and the sizing functions of src/model_profile.cpp. Fields keep their
-- C types as hypotheses where a theorem needs them; products are taken in the width the source
-- computes them in. The config.json reader is not here.
pub mod Gcd
pub mod Tune
mod Presets
mod Examples
use kvtier.Prelude.{
  ℕ, zero, suc, ◌+◌, ◌-◌, ◌*◌, ◌/◌, ◌%◌, ◌^◌, Bool, ◌&&◌, Option, none, some, ◌==◌, ltb, leb,
  if◌then◌else◌,
}
use kvtier.Common.{u32, u64}

pub data AttnKind : Type 0 where
  mha mqa gqa mla swa ssm hybrid sparse : AttnKind

pub record ModelProfile : Type 0 where
  pub kind : AttnKind
  pub n_layers : ℕ
  pub n_q_heads : ℕ
  pub n_kv_heads : ℕ
  pub head_dim : ℕ
  pub dtype_bytes : ℕ
  pub latent_dim : ℕ
  pub rope_dim : ℕ
  pub window : ℕ
  pub attn_layers : ℕ
  pub tokens_per_group : ℕ

pub record ModelTuning : Type 0 where
  pub page_size : ℕ
  pub alignment : ℕ
  pub group_bytes : ℕ
  pub stripe_unit : ℕ
  pub stripe_threshold : ℕ
  pub batch_min_bytes : ℕ
  pub region_align_bytes : ℕ
  pub dram_entry_max_bytes : ℕ

-- `a ? a : b`
abbrev pub or_default : ℕ → ℕ → ℕ
or_default a b = if a == 0 then b else a

-- the loop of `gcd_u64`, on fuel; `none` means that the fuel ran out
unfoldable pub gcd_loop : ℕ → ℕ → ℕ → Option ℕ
gcd_loop zero a b = none
gcd_loop (suc fuel) a b =
    let rest = gcd_loop fuel b (a % b) in if b == 0 then some (or_default a 1) else rest

-- the second operand bounds the number of rounds
unfoldable pub gcd_u64 : ℕ → ℕ → ℕ
gcd_u64 a b = elim (gcd_loop (b + 1) a b) [ none ↦ 0 | some g ↦ g ]

unfoldable pub lcm_u64 : ℕ → ℕ → ℕ
lcm_u64 a b = if a == 0 then 0 else if b == 0 then 0 else u64 (a / gcd_u64 a b * b)

unfoldable pub mp_align_up : ℕ → ℕ → ℕ
mp_align_up v a = if a == 0 then v else u64 (u64 (v + a - 1) / a * a)

unfoldable pub mp_align_down : ℕ → ℕ → ℕ
mp_align_down v a = if a == 0 then v else v / a * a

-- the loop of `pow2_floor` over a `uint32_t` p, on fuel
unfoldable pub pow2_loop : ℕ → ℕ → ℕ → Option ℕ
pow2_loop zero v p = none
pow2_loop (suc fuel) v p =
    let more = pow2_loop fuel v (u32 (p * 2)) in if leb (p * 2) v then more else some p

-- a value below 2^32 takes at most 32 rounds
unfoldable pub pow2_floor : ℕ → Option ℕ
pow2_floor v = pow2_loop 33 v 1

unfoldable pub kv_mp_kv_layers : ModelProfile → ℕ
kv_mp_kv_layers p = elim p.kind [
  | ssm ↦ 0
  | hybrid ↦ or_default p.attn_layers p.n_layers
  | _ ↦ p.n_layers
]

abbrev latent_bytes : ModelProfile → ℕ → ℕ
latent_bytes p d = u32 ((p.latent_dim + p.rope_dim) * d)

abbrev head_bytes : ModelProfile → ℕ → ℕ
head_bytes p d = u32 (2 * p.n_kv_heads * p.head_dim * d)

unfoldable pub kv_mp_bytes_per_token_layer : ModelProfile → ℕ
kv_mp_bytes_per_token_layer p =
    let d = or_default p.dtype_bytes 2 in
    elim p.kind [
      | ssm ↦ 0
      | mla ↦ latent_bytes p d
      | mqa ↦ u32 (2 * 1 * p.head_dim * d)
      | sparse ↦ if p.latent_dim == 0 then head_bytes p d else latent_bytes p d
      | _ ↦ head_bytes p d
    ]

unfoldable pub kv_mp_bytes_per_token : ModelProfile → ℕ
kv_mp_bytes_per_token p = u64 (kv_mp_bytes_per_token_layer p * kv_mp_kv_layers p)

unfoldable pub kv_mp_group_layer_bytes : ModelProfile → ℕ → ℕ
kv_mp_group_layer_bytes p tokens_in_group =
    u64 (
      kv_mp_bytes_per_token_layer p * or_default tokens_in_group (or_default p.tokens_per_group 32))

unfoldable pub kv_mp_group_bytes : ModelProfile → ℕ → ℕ
kv_mp_group_bytes p tokens_in_group =
    u64 (kv_mp_group_layer_bytes p tokens_in_group * kv_mp_kv_layers p)

abbrev is_swa : AttnKind → Bool
is_swa swa = Bool.true
is_swa _ = Bool.false

unfoldable pub kv_mp_context_bytes : ModelProfile → ℕ → ℕ
kv_mp_context_bytes p tokens = elim p.kind [
  | ssm ↦ 0
  | _ ↦ u64 (
      kv_mp_bytes_per_token p
      * (if is_swa p.kind && ltb 0 p.window && ltb p.window tokens then p.window else tokens))
]

-- `want`, from its first rounding to the bound by the threshold and the page
unfoldable pub batch_bytes : ℕ → ℕ → ℕ → ℕ → ℕ
batch_bytes group_bytes page_size target_batch threshold =
    let want₁ =
      mp_align_up (if ltb group_bytes target_batch then target_batch else group_bytes) page_size in
    let want₂ = if leb group_bytes threshold then mp_align_up want₁ group_bytes else want₁ in
    let want₃ = if ltb threshold want₂ then mp_align_down threshold page_size else want₂ in
    or_default want₃ page_size

unfoldable pub threshold_bytes : ℕ → ℕ → ℕ → ℕ
threshold_bytes group_bytes page_size target_stripe =
    if ltb target_stripe group_bytes
    then mp_align_up target_stripe page_size
    else or_default (mp_align_down target_stripe group_bytes) group_bytes

unfoldable pub region_align : ℕ → ℕ → ℕ
region_align group_bytes region_size_bytes =
    if region_size_bytes == 0
    then group_bytes
    else or_default (mp_align_down region_size_bytes group_bytes) group_bytes

unfoldable pub alignment_of : ℕ → ℕ → ℕ
alignment_of group_bytes page_size = elim (pow2_floor (gcd_u64 group_bytes page_size)) [
  | none ↦ 0
  | some a ↦ or_default a 1
]

-- what `kv_mp_tune` writes to `*out`, past its checks
unfoldable pub tuning : ModelProfile → ℕ → ℕ → ℕ → ℕ → ModelTuning
tuning p page_size region_size_bytes target_stripe target_batch =
    let layer_bytes = kv_mp_group_layer_bytes p (or_default p.tokens_per_group 32) in
    let group_bytes = u64 (layer_bytes * kv_mp_kv_layers p) in
    let stripe = or_default target_stripe (256 * 1024) in
    let batch = or_default target_batch (256 * 1024) in
    let unit_gran = or_default (lcm_u64 page_size (or_default layer_bytes page_size)) page_size in
    let threshold = threshold_bytes group_bytes page_size stripe in
    record {
      page_size = page_size;
      alignment = alignment_of group_bytes page_size;
      group_bytes = group_bytes;
      stripe_unit = mp_align_up stripe unit_gran;
      stripe_threshold = threshold;
      batch_min_bytes = batch_bytes group_bytes page_size batch threshold;
      region_align_bytes = region_align group_bytes region_size_bytes;
      dram_entry_max_bytes = mp_align_up group_bytes page_size;
    }

-- `none` is KV_MP_EINVAL
unfoldable pub kv_mp_tune : ModelProfile → ℕ → ℕ → ℕ → ℕ → Option ModelTuning
kv_mp_tune p page_size region_size_bytes target_stripe target_batch =
    let layer_bytes = kv_mp_group_layer_bytes p (or_default p.tokens_per_group 32) in
    let group_bytes = u64 (layer_bytes * kv_mp_kv_layers p) in
    if page_size == 0
    then none
    else if group_bytes == 0
    then none
    else some (tuning p page_size region_size_bytes target_stripe target_batch)

pub record MpConfigValues : Type 0 where
  pub n_groups_tokens : ℕ
  pub max_layers : ℕ
  pub stripe_unit : ℕ
  pub stripe_threshold : ℕ
  pub batch_min_bytes : ℕ
  pub region_align_bytes : ℕ
  pub dram_entry_max_bytes : ℕ

unfoldable pub kv_mp_config_values : ModelProfile → ℕ → Option MpConfigValues
kv_mp_config_values p page_size = elim (kv_mp_tune p page_size 0 0 0) [
  | none ↦ none
  | some t ↦ some (record {
    n_groups_tokens = or_default p.tokens_per_group 32;
    max_layers = kv_mp_kv_layers p;
    stripe_unit = t.stripe_unit;
    stripe_threshold = t.stripe_threshold;
    batch_min_bytes = t.batch_min_bytes;
    region_align_bytes = t.group_bytes;
    dram_entry_max_bytes = t.dram_entry_max_bytes;
  })
]
