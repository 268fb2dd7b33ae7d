-- ===== src/Python.antt =====
-- What the SDK uses of Python itself: exceptions, text, dynamically typed values and dictionaries.
mod Exceptions
mod Words
mod Objects
mod Lookup
mod Mapping
pub use Lookup.{get-put_same, get-put_other, test_sym}
pub use Exceptions.{Error, value_error, type_error, key_error, index_error, attribute_error}
pub use Exceptions.{
  canonicalization_error, policy_timeout, Result, ok, fail, ◌>>=◌, ◌>>◌, ensure, ok-injective,
  fail-injective,
}
pub use Exceptions.{assertion_error, zero_division_error, overflow_error}
pub use Exceptions.{bind-ok, bind-fail, Result-cases, fail_ok, ensure-passed}
unfoldable pub use Words.{
  codes, is_prefix, is_suffix, is_infix, starts_with, split_dot, join_text, text_mem, rstrip,
  char_text, repeat_text,
}
pub use Objects.{
  Value, null, bool, int, float, str, list, dict, Values, nil, cons, Fields, end, field, other,
  Builtins,
}
unfoldable pub use Objects.{
  get, has, get_or, put, is_text, value_mem, as_text, as_text_list, in_value, subscript, int_of,
  is_null, texts,
}
unfoldable pub use Mapping.{lookup, insert, erase}
pub use Mapping.{lookup-insert_same, lookup-insert_other, lookup-erase_same, lookup-erase_other}
