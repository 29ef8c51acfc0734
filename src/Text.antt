-- ===== src/Text.antt =====
-- Python's `str` and `unicode` values as lists of code points, with the methods that cpplint.py
-- calls on them. A method's receiver is the first argument; `find` gives `none` for -1.
mod Words
mod Search
pub mod Laws
unfoldable pub use Words.*
unfoldable pub use Search.*
