-- ===== src/Parser.antt =====
-- internal/parser: from the cards of a search page to listings. The HTML tree is goquery's: a card is
-- given by the attributes and the texts that the selectors of `listingFromCard` reach, and net/url by
-- an interface. Regular expressions are matchers by clauses.
pub mod Amount
pub mod Place
pub mod Page
unfoldable pub use Amount.*
unfoldable pub use Place.*
unfoldable pub use Page.*
