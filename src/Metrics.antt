-- ===== src/Metrics.antt =====
-- The metrics adapters (python/planner/rbg_planner/metrics/): `class PrometheusAdapter` and its four
-- subclasses, which differ in their names and, for Dynamo, in two queries. The Prometheus server is
-- a parameter: the answer to a query text.

pub mod Queries
pub mod Interface
pub mod Totals
use rbg_planner.Prelude.{
  ℕ, ◌==◌, ℤ, pos, String, List, [], ◌∷◌, ◌++◌, Bool, true, false, Option, none, some, length,
  if◌then◌else◌,
}
use Prim.Native.String.{◌++◌ as append}
use mathlib.Core.Option.{get_or}
use text.Mathlib.Text.{◌==◌ as str_eq}
use rbg_planner.Python.{Result, ok, err, value_error, key_error, index_error, on_error}
use rbg_planner.Python.Pure.{◌>>=◌, ◌>>◌}
use rbg_planner.Python.Float.{Floating, div}

pub record MetricNames : Type 0 where
  pub ttft : String
  pub itl : String
  pub request_duration : String
  pub requests_total : String
  pub prompt_tokens : String
  pub generation_tokens : String
  pub model_label : String

-- The concrete adapter classes.
pub data Adapter : Type 0 where
  sglang vllm dynamo patio : Adapter

-- `self.metrics`, as each class sets it
abbrev sglang_names : MetricNames
sglang_names = record {
  ttft = "sglang_time_to_first_token_seconds";
  itl = "sglang_inter_token_latency_seconds";
  request_duration = "sglang_e2e_request_latency_seconds";
  requests_total = "sglang_num_requests_total";
  prompt_tokens = "sglang_prompt_tokens_total";
  generation_tokens = "sglang_generation_tokens_total";
  model_label = "model_name";
}

abbrev vllm_names : MetricNames
vllm_names = record {
  ttft = "vllm:time_to_first_token_seconds";
  itl = "vllm:time_per_output_token_seconds";
  request_duration = "vllm:e2e_request_latency_seconds";
  requests_total = "vllm:num_requests_total";
  prompt_tokens = "vllm:prompt_tokens_total";
  generation_tokens = "vllm:generation_tokens_total";
  model_label = "model_name";
}

abbrev dynamo_names : MetricNames
dynamo_names = record {
  ttft = "dynamo_frontend_time_to_first_token_seconds";
  itl = "dynamo_frontend_inter_token_latency_seconds";
  request_duration = "dynamo_frontend_request_duration_seconds";
  requests_total = "dynamo_frontend_requests_total";
  prompt_tokens = "dynamo_frontend_input_sequence_tokens";
  generation_tokens = "dynamo_frontend_output_sequence_tokens";
  model_label = "model";
}

abbrev patio_names : MetricNames
patio_names = record {
  ttft = "patio:time_to_first_token_seconds";
  itl = "patio:inter_token_latency_seconds";
  request_duration = "patio:request_duration_seconds";
  requests_total = "patio:requests_total";
  prompt_tokens = "patio:prompt_tokens_total";
  generation_tokens = "patio:generation_tokens_total";
  model_label = "model_name";
}

unfoldable pub metric_names : Adapter → MetricNames
metric_names sglang = sglang_names
metric_names vllm = vllm_names
metric_names dynamo = dynamo_names
metric_names patio = patio_names

-- `create_metrics_adapter`, over the keys of `ADAPTERS`
unfoldable pub create_metrics_adapter : String → Result Adapter
create_metrics_adapter source =
    if str_eq source "sglang"
    then ok sglang
    else if str_eq source "vllm"
    then ok vllm
    else if str_eq source "dynamo"
    then ok dynamo
    else if str_eq source "patio"
    then ok patio
    else err value_error

infixr 65 ◌&◌
abbrev ◌&◌ : String → String → String
s & t = append s t

-- `key="text"`, unless the text is missing or empty
unfoldable pub label_item : String → Option String → List String
label_item key none = []
label_item key (some text) = if str_eq text "" then [] else (key & "=\"" & text & "\"") ∷ []

-- `",".join(items)`
unfoldable pub join : List String → String
join [] = ""
join (x ∷ []) = x
join (x ∷ y ∷ rest) = x & "," & join (y ∷ rest)

-- `_build_label_filter`
unfoldable pub build_label_filter : Adapter → Option String → Option String → String
unfolding metric_names label_item join
build_label_filter adapter model_name role =
    let filters =
      label_item (metric_names adapter).model_label model_name ++ label_item "role" role in
    if length filters == 0 then "" else "{" & join filters & "}"

-- `increase(name[interval])`, of a name with its label filter
abbrev pub increase_of : String → String → String
increase_of series interval = "increase(" & series & "[" & interval & "])"

unfoldable pub avg_query : Adapter → String → String → Option String → Option String → String
unfolding build_label_filter
avg_query adapter metric_name interval model_name role =
    let lf = build_label_filter adapter model_name role in
    increase_of (metric_name & "_sum" & lf) interval
    & "/"
    & increase_of (metric_name & "_count" & lf) interval

unfoldable pub increase_query : Adapter → String → String → Option String → Option String → String
unfolding build_label_filter
increase_query adapter metric_name interval model_name role =
    increase_of (metric_name & build_label_filter adapter model_name role) interval

unfoldable pub ratio_query : Adapter → String → String → String → Option String → String
unfolding build_label_filter
ratio_query adapter numerator denominator interval model_name =
    let lf = build_label_filter adapter model_name none in
    increase_of (numerator & lf) interval & "/" & increase_of (denominator & lf) interval

-- One element of an answer: what stands under its key `value`, a time and a text, if it is there.
pub record Series : Type 0 where
  pub value : Option (List String)

-- `r["value"][1]`
unfoldable pub value_text : Series → Result String
value_text r = elim r.value [ none ↦ err key_error | some items ↦ second items ]
  where
    second : List String → Result String
    second (t ∷ v ∷ rest) = ok v
    second items = err index_error

pub record Prometheus (W : Type 0) : Type 0 where
  pub custom_query : String → W → Result (List Series) × W

module _ {F : Type 0} ⦃d : Floating F⦄ where
  open d use {of_int, add, eq, parse}

  -- `float(text)`
  abbrev pub float_of : String → Result F
  float_of text = elim (parse text) [ none ↦ err value_error | some x ↦ ok x ]

  -- `[float(r["value"][1]) for r in result if r["value"][1] != "NaN"]`
  unfoldable pub numbers_of : List Series → Result (List F)
  unfolding value_text
  numbers_of [] = ok []
  numbers_of (r ∷ rs) = do
    text ← value_text r
    let rest = numbers_of rs
    if str_eq text "NaN" then rest else (do x ← float_of text; xs ← rest; ok (x ∷ xs))

  -- `sum(values) / len(values)`, and 0.0 without values
  unfoldable pub average : List F → Result F
  average [] = ok (of_int (pos 0))
  average (x ∷ xs) = div (d.sum (x ∷ xs)) (of_int (pos (length (x ∷ xs))))

  -- `_exec_avg`, on the answer
  unfoldable pub avg_of : Result (List Series) → F
  unfolding numbers_of average
  avg_of answer =
      on_error (of_int (pos 0)) (do result ← answer; values ← numbers_of result; average values)

  -- The loop of `_query_increase`.
  unfoldable pub total_from : F → List Series → Result F
  unfolding value_text
  total_from acc [] = ok acc
  total_from acc (r ∷ rs) = do
    text ← value_text r
    val ← float_of text
    total_from (if eq val val then add acc val else acc) rs

  -- `_query_increase`, on the answer
  unfoldable pub increase_total : Result (List Series) → F
  unfolding total_from
  increase_total answer =
      on_error (of_int (pos 0)) (do result ← answer; total_from (of_int (pos 0)) result)

  module _ {W : Type 0} (prom : Prometheus W) (adapter : Adapter) where
    abbrev pub exec_avg : String → W → F × W
    exec_avg query w = let (r, w') = prom.custom_query query w in (avg_of r, w')

    abbrev pub query_avg_metric : String → String → Option String → W → F × W
    query_avg_metric metric_name interval model_name =
        exec_avg (avg_query adapter metric_name interval model_name none)

    abbrev pub query_counter_ratio : String → String → String → Option String → W → F × W
    query_counter_ratio numerator denominator interval model_name =
        exec_avg (ratio_query adapter numerator denominator interval model_name)

    unfoldable pub get_avg_ttft : String → Option String → W → F × W
    unfolding avg_query avg_of metric_names
    get_avg_ttft = query_avg_metric (metric_names adapter).ttft

    unfoldable pub get_avg_itl : String → Option String → W → F × W
    unfolding avg_query avg_of metric_names
    get_avg_itl = query_avg_metric (metric_names adapter).itl

    unfoldable pub get_avg_request_duration : String → Option String → W → F × W
    unfolding avg_query avg_of metric_names
    get_avg_request_duration = query_avg_metric (metric_names adapter).request_duration

    unfoldable pub get_request_count : String → Option String → W → F × W
    unfolding increase_query increase_total metric_names
    get_request_count interval model_name w =
        let query =
          increase_query adapter (metric_names adapter).requests_total interval model_name none in
        let (r, w') = prom.custom_query query w in (increase_total r, w')

    -- The token counts are counters, but histograms in `class DynamoAdapter`.
    abbrev pub avg_tokens : Adapter → String → String → Option String → W → F × W
    avg_tokens dynamo tokens = query_avg_metric tokens
    avg_tokens _ tokens = query_counter_ratio tokens (metric_names adapter).requests_total

    unfoldable pub get_avg_isl : String → Option String → W → F × W
    unfolding avg_query ratio_query avg_of metric_names
    get_avg_isl = avg_tokens adapter (metric_names adapter).prompt_tokens

    unfoldable pub get_avg_osl : String → Option String → W → F × W
    unfolding avg_query ratio_query avg_of metric_names
    get_avg_osl = avg_tokens adapter (metric_names adapter).generation_tokens
