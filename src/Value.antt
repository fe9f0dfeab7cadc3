-- ===== src/Value.antt =====
-- The values of Python that come out of a JSON document, and `dict` with text keys.
mod Defs
mod Items
mod Python
pub use Defs.*
pub use Python.*
pub use Items.{
  as_dict, has_key, NodupKeys, items-NodupKeys, get_or-lookup, put-NodupKeys, lookup-put,
  has_key-lookup, lookup-has_key,
}
unfoldable pub use Items.{items, lookup, get_or, get, put, merge, without}
