-- ===== src/ModelProfile/Presets.antt =====
-- The presets of src/model_profile.cpp, without their names.
use kvtier.Prelude.{ℕ, Option, none, some, List, [], ◌∷◌, ◌||◌, leb, if◌then◌else◌, get_or}
use kvtier.ModelProfile.{AttnKind, mha, mqa, gqa, mla, ModelProfile}

-- KV_MODEL_UNKNOWN and KV_MODEL__COUNT
abbrev kv_model_unknown : ℕ
kv_model_unknown = 0

abbrev kv_model_count : ℕ
kv_model_count = 12

-- the macro `P`, with the arguments that are not 0 in some preset
abbrev preset : AttnKind → ℕ → ℕ → ℕ → ℕ → ℕ → ℕ → ModelProfile
preset kind layers qh kvh hd lat rope = record {
  kind = kind;
  n_layers = layers;
  n_q_heads = qh;
  n_kv_heads = kvh;
  head_dim = hd;
  dtype_bytes = 2;
  latent_dim = lat;
  rope_dim = rope;
  window = 0;
  attn_layers = 0;
  tokens_per_group = 32;
}

abbrev unknown : ModelProfile
unknown = record {
  kind = mha;
  n_layers = 0;
  n_q_heads = 0;
  n_kv_heads = 0;
  head_dim = 0;
  dtype_bytes = 0;
  latent_dim = 0;
  rope_dim = 0;
  window = 0;
  attn_layers = 0;
  tokens_per_group = 0;
}

abbrev pub presets : List ModelProfile
presets =
    unknown
    ∷ preset gqa 32 32 8 128 0 0
    ∷ preset gqa 80 64 8 128 0 0
    ∷ preset gqa 126 128 8 128 0 0
    ∷ preset gqa 28 12 2 128 0 0
    ∷ preset gqa 28 28 4 128 0 0
    ∷ preset gqa 80 64 8 128 0 0
    ∷ preset gqa 32 32 8 128 0 0
    ∷ preset gqa 42 16 8 256 0 0
    ∷ preset gqa 40 32 2 128 0 0
    ∷ preset mla 61 128 0 128 512 64
    ∷ preset mqa 32 71 1 64 0 0
    ∷ []

unfoldable pub kv_mp_builtin : ℕ → Option ModelProfile
kv_mp_builtin id =
    if leb id kv_model_unknown || leb kv_model_count id
    then none
    else some (get_or presets id unknown)
