-- ===== src/Typemap/Reasons.antt =====
-- errors/errors.go: the reasons, the report of an item that was left out, and `BridgeError`.
use mochi_beam.Base.{
  Bool, true, false, not, ◌&&◌, ◌++◌, ◌==◌, length, if◌then◌else◌, Option, some, none,
}
use mochi_beam.Base.Int.{ℤ, pos, negsuc}
use mochi_beam.Text.Chars.{Text, codes}
use mochi_beam.Text.Decimal.{decimal_ℤ}

pub data SkipReason : Type 0 where
  skip_unknown skip_any_term skip_bitstring skip_charlist skip_complex_union skip_e_doc : SkipReason
  skip_fun_arg_not_in_table skip_iodata skip_non_ok_error_union skip_no_spec : SkipReason
  skip_no_typeinfo skip_recursive_type skip_remote_type skip_typed_map : SkipReason
  skip_untyped_fun skip_untyped_map skip_untyped_tuple skip_elixir_runtime : SkipReason

-- `SkipReason.String`.
unfoldable pub reason_text : SkipReason → Text
reason_text skip_unknown = codes "SkipUnknown"
reason_text skip_any_term = codes "SkipAnyTerm"
reason_text skip_bitstring = codes "SkipBitstring"
reason_text skip_charlist = codes "SkipCharlist"
reason_text skip_complex_union = codes "SkipComplexUnion"
reason_text skip_e_doc = codes "SkipEDoc"
reason_text skip_fun_arg_not_in_table = codes "SkipFunArgNotInTable"
reason_text skip_iodata = codes "SkipIodata"
reason_text skip_non_ok_error_union = codes "SkipNonOkErrorUnion"
reason_text skip_no_spec = codes "SkipNoSpec"
reason_text skip_no_typeinfo = codes "SkipNoTypeinfo"
reason_text skip_recursive_type = codes "SkipRecursiveType"
reason_text skip_remote_type = codes "SkipRemoteType"
reason_text skip_typed_map = codes "SkipTypedMap"
reason_text skip_untyped_fun = codes "SkipUntypedFun"
reason_text skip_untyped_map = codes "SkipUntypedMap"
reason_text skip_untyped_tuple = codes "SkipUntypedTuple"
reason_text skip_elixir_runtime = codes "SkipElixirRuntime"

-- `SkipReport`; the field `Function` is `function_name`.
pub record SkipReport : Type 0 where
  pub module_name : Text
  pub function_name : Text
  pub arity : ℤ
  pub at_position : Text
  pub reason : SkipReason
  pub detail : Text

abbrev is_natural : ℤ → Bool
is_natural (pos n) = true
is_natural (negsuc n) = false

-- The place of the report.
unfoldable pub place : SkipReport → Text
place s =
    if not (length s.function_name == 0) && is_natural s.arity
    then s.module_name
      ++ codes ":"
      ++ s.function_name
      ++ codes "/"
      ++ decimal_ℤ s.arity
      ++ codes "@"
      ++ s.at_position
    else if not (length s.function_name == 0)
    then s.module_name ++ codes ":" ++ s.function_name ++ codes "@" ++ s.at_position
    else s.module_name

-- `SkipReport.String`.
unfoldable pub report_text : SkipReport → Text
report_text s =
    codes "SKIPPED: "
    ++ place s
    ++ codes "\n  Reason: "
    ++ reason_text s.reason
    ++ codes "\n  Detail: "
    ++ s.detail
    ++ codes "\n"

-- `BridgeError`, for causes of any type.
pub record BridgeError (E : Type 0) : Type 0 where
  pub phase : Text
  pub of_package : Text
  pub cause : E

-- `BridgeError.Error`, for the words of the cause.
unfoldable pub bridge_text : {E : Type 0} → (E → Text) → BridgeError E → Text
bridge_text words e =
    if length e.of_package == 0
    then e.phase ++ codes ": " ++ words e.cause
    else e.phase ++ codes "[" ++ e.of_package ++ codes "]: " ++ words e.cause

-- `Wrap`, with no cause for nil.
unfoldable pub wrap_cause : {E : Type 0} → Text → Text → Option E → Option (BridgeError E)
wrap_cause phase name none = none
wrap_cause phase name (some e) = some (record { phase = phase; of_package = name; cause = e })
