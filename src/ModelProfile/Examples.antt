-- ===== src/ModelProfile/Examples.antt =====
-- src/model_profile.cpp on the preset "llama-3.1-8b".
use kvtier.Prelude.{◌*◌, get_or, ◌+◌, ◌≤◌, ◌<◌, ◌≡◌, ◌⊎◌, refl, arith, some, none}
use kvtier.ModelProfile.{
  ModelProfile, ModelTuning, gqa, kv_mp_bytes_per_token, kv_mp_tune, kv_mp_group_bytes,
  kv_mp_group_layer_bytes, kv_mp_kv_layers, kv_mp_bytes_per_token_layer,
}
use kvtier.ModelProfile.Presets.{presets, kv_mp_builtin}
use kvtier.ModelProfile.Tune.{full_group, kv_mp_tune_lem}

abbrev llama : ModelProfile
llama = record {
  kind = gqa;
  n_layers = 32;
  n_q_heads = 32;
  n_kv_heads = 8;
  head_dim = 128;
  dtype_bytes = 2;
  latent_dim = 0;
  rope_dim = 0;
  window = 0;
  attn_layers = 0;
  tokens_per_group = 32;
}

llama_group : full_group llama ≡ 4194304
unfolding kv_mp_group_bytes kv_mp_group_layer_bytes kv_mp_kv_layers kv_mp_bytes_per_token_layer
llama_group = refl

kv_mp_tune_lem_example :
    (t : ModelTuning) × (kv_mp_tune llama 4096 0 0 0 ≡ some t)
    × (t.group_bytes ≡ full_group llama)
    × (t.group_bytes ≤ t.dram_entry_max_bytes)
    × (t.dram_entry_max_bytes < t.group_bytes + 4096)
    × (0 < t.batch_min_bytes)
    × (0 < t.region_align_bytes)
    × ((t.region_align_bytes ≤ 0) ⊎ (t.region_align_bytes ≡ t.group_bytes))
kv_mp_tune_lem_example =
    kv_mp_tune_lem llama 4096 0 0 0 (omega arith) (omega (arith, llama_group))
      (omega (arith, llama_group))

-- the presets' bytes for a token, and the ids that name none
builtin : (kv_mp_builtin 1 ≡ some llama) × (kv_mp_builtin 0 ≡ none) × (kv_mp_builtin 12 ≡ none)
unfolding kv_mp_builtin
builtin = (refl, refl, refl)

-- DeepSeek V3 keeps 576 numbers of two bytes in each of its 61 layers
latent : kv_mp_bytes_per_token (get_or presets 10 llama) ≡ 61 * 1152
unfolding kv_mp_bytes_per_token kv_mp_kv_layers kv_mp_bytes_per_token_layer
latent = refl
