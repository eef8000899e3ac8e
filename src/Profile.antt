-- ===== src/Profile.antt =====
-- The profiling data, and how the two interpolators load it
-- (python/planner/rbg_planner/utils/perf_interpolation.py). What the files hold, and what reading one
-- raises, are parameters; the keys that are read of them are the code's.
use rbg_planner.Prelude.{ℤ, String, List, [], ◌∷◌, Option, none, some, map, if◌then◌else◌}
use mathlib.Core.Option
use mathlib.Core.Option.{get_or}
use text.Mathlib.Text.{◌==◌ as str_eq}
use rbg_planner.Python.Float.{Floating, int}
use rbg_planner.Python.Text.{join_path}
use rbg_planner.Python.Pure.{◌>>=◌}
use rbg_planner.Python.{
  Result, ok, err, value_error, key_error, type_error, index_error, profiling_data_not_found,
}

-- `max_kv_tokens`: an `int`, or a numpy integer where it comes out of an NPZ file. The two differ in
-- a division by zero.
pub data KvTokens : Type 0 where
  json_tokens : ℤ → KvTokens
  numpy_tokens : ℤ → KvTokens

pub record PrefillData (F : Type 0) : Type 0 where
  pub prefill_isl : List F
  pub prefill_ttft : List F
  pub prefill_thpt_per_gpu : List F

pub record DecodeData (F : Type 0) : Type 0 where
  pub x_kv_usage : List F
  pub y_context_length : List F
  pub z_itl : List F
  pub z_thpt_per_gpu : List F
  pub max_kv_tokens : KvTokens

-- A number of a text in JSON, or of an array: an `int` or a `float`.
pub data Number (F : Type 0) : Type 0 where
  int_number : ℤ → Number F
  float_number : F → Number F

-- A value under a key of the profiling data: a list of numbers, or one number.
pub data Item (F : Type 0) : Type 0 where
  array : List (Number F) → Item F
  number : Number F → Item F

-- A dictionary, or the arrays of an NPZ file by name.
abbrev pub Items : Type 0 → Type 0
Items F = List (String × Item F)

-- What the code finds on disk, by path: an NPZ file and the text of any other file, `none` where no
-- file is; and `json.load` of a text.
pub record ProfileFiles (F : Type 0) : Type 0 where
  pub npz : String → Option (Result (Items F))
  pub text_at : String → Option String
  pub json_load : String → Result (Items F)

-- The first file that exists, or `ProfilingDataNotFoundError`.
abbrev pub found_in : {A : Type 0} → String → Option (Result A) → Option (Result A) → Result A
found_in dir (some npz) json = npz
found_in dir none (some json) = json
found_in dir none none = err (profiling_data_not_found dir)

-- The dictionary that was passed, where no directory was. An empty one is none.
abbrev pub passed : {F : Type 0} → Option (Items F) → Result (Items F)
passed none = err value_error
passed (some []) = err value_error
passed (some (item ∷ items)) = ok (item ∷ items)

-- `data[key]`
unfoldable pub item : {F : Type 0} → Items F → String → Result (Item F)
item [] key = err key_error
item ((name, value) ∷ items) key =
    let rest = item items key in if str_eq name key then ok value else rest

module _ {F : Type 0} ⦃d : Floating F⦄ where
  abbrev pub float_of : Number F → F
  float_of (int_number n) = d.of_int n
  float_of (float_number x) = x

  -- `np.array(value)` of a list; what is no list is refused as soon as it is used as one.
  abbrev pub array_of : Item F → Result (List F)
  array_of (array xs) = ok (map float_of xs)
  array_of (number x) = err type_error

  -- `int(value)`
  abbrev pub tokens_of : Item F → Result KvTokens
  tokens_of (number (int_number n)) = ok (json_tokens n)
  tokens_of (number (float_number x)) = int x >>= (λ n. ok (json_tokens n))
  tokens_of (array xs) = err type_error

  -- `value[0]` of an array of integers
  abbrev pub first_tokens : Item F → Result KvTokens
  first_tokens (array (int_number n ∷ xs)) = ok (numpy_tokens n)
  first_tokens (array (float_number x ∷ xs)) = err type_error
  first_tokens (array []) = err index_error
  first_tokens (number x) = err type_error

  -- The keys that `PrefillInterpolator.__init__` reads.
  unfoldable pub read_prefill : Items F → Result (PrefillData F)
  unfolding item
  read_prefill items = do
    isl ← item items "prefill_isl" >>= array_of
    ttft ← item items "prefill_ttft" >>= array_of
    thpt ← item items "prefill_thpt_per_gpu" >>= array_of
    ok (record { prefill_isl = isl; prefill_ttft = ttft; prefill_thpt_per_gpu = thpt })

  -- The keys that `DecodeInterpolator.__init__` reads.
  unfoldable pub read_decode : (Item F → Result KvTokens) → Items F → Result (DecodeData F)
  unfolding item
  read_decode tokens items = do
    kv_usage ← item items "x_kv_usage" >>= array_of
    context_length ← item items "y_context_length" >>= array_of
    itl ← item items "z_itl" >>= array_of
    thpt ← item items "z_thpt_per_gpu" >>= array_of
    max_kv_tokens ← item items "max_kv_tokens" >>= tokens
    ok (record {
      x_kv_usage = kv_usage;
      y_context_length = context_length;
      z_itl = itl;
      z_thpt_per_gpu = thpt;
      max_kv_tokens = max_kv_tokens;
    })

  -- The loading in `PrefillInterpolator.__init__`. An empty directory name is none.
  unfoldable pub load_prefill :
      Option String → ProfileFiles F → Option (Items F) → Result (PrefillData F)
  unfolding join_path read_prefill
  load_prefill dir files raw =
      let name = get_or dir "" in
      if str_eq name ""
      then passed raw >>= read_prefill
      else let npz_fn =
          join_path (join_path name "selected_prefill_interpolation") "raw_data.npz" in
        let json_fn = join_path name "prefill_raw_data.json" in
        found_in name (Option.map (λ data_file. data_file >>= read_prefill) (files.npz npz_fn))
          (Option.map (λ text. files.json_load text >>= read_prefill) (files.text_at json_fn))

  -- The loading in `DecodeInterpolator.__init__`.
  unfoldable pub load_decode :
      Option String → ProfileFiles F → Option (Items F) → Result (DecodeData F)
  unfolding join_path read_decode
  load_decode dir files raw =
      let name = get_or dir "" in
      if str_eq name ""
      then passed raw >>= read_decode tokens_of
      else let npz_fn = join_path (join_path name "selected_decode_interpolation") "raw_data.npz" in
        let json_fn = join_path name "decode_raw_data.json" in
        found_in name
          (Option.map (λ data_file. data_file >>= read_decode first_tokens) (files.npz npz_fn))
          (Option.map (λ text. files.json_load text >>= read_decode tokens_of)
            (files.text_at json_fn))
