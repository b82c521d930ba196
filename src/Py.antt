-- ===== src/Py.antt =====
-- What the service uses of Python's standard library: text, numbers, `decimal`, `uuid`, `datetime`,
-- `urllib.parse`, and the values of a dynamic language.
pub mod Strings
pub mod Numbers
pub mod Decimal
pub mod Uuid
pub mod Datetime
pub mod Url
pub mod Json
pub mod Quote
