-- ===== src/App/LinkTests.antt =====
-- The links of the unit tests of core_link.rs, and the listing of two of them.
use coap_server_rs.Base.{
  ℕ, ◌+◌, ◌/◌, ◌%◌, [], ◌∷◌, ◌++◌, map, Dict, ok, returned, panicked, Text, codes, ◌≡◌, refl,
}
use coap_server_rs.App.{CoreLink}
use coap_server_rs.App.Core.{handle_core}
use coap_server_rs.App.Assemble.{Libraries, discoverable_of}
use coap_server_rs.App.Link.{
  LinkWriter, LinkAttributeValue, str, content_format, unit_value, new_link, add_attr,
  format_for_comparison, format_single_link,
}

abbrev two_digits : ℕ → Text
two_digits n = (n / 10 + 48) ∷ (n % 10 + 48) ∷ []

abbrev with_attr : Text → Text → Text → Text
with_attr key text l = l ++ codes ";" ++ key ++ codes "=" ++ text

abbrev text_writer : LinkWriter
text_writer = record {
  W = Text;
  L = Text;
  Error = Text;
  new_write = [];
  link = λ path w. w ++ codes "<" ++ path ++ codes ">";
  attr = with_attr;
  attr_quoted = λ key s l. with_attr key (codes "\"" ++ s ++ codes "\"") l;
  attr_u32 = λ key n l. with_attr key (two_digits n) l;
  finish_link = λ l. ok l;
  finish = λ w. ok w;
}

abbrev link_a : CoreLink LinkAttributeValue
link_a =
    add_attr (codes "ct") (content_format 50)
      (add_attr (codes "rt") (str (codes "a")) (new_link (codes "/a")))

abbrev link_b : CoreLink LinkAttributeValue
link_b = add_attr (codes "obs") unit_value (new_link (codes "/b/whatever"))

test_link_a : format_single_link text_writer link_a ≡ returned (codes "</a>;rt=\"a\";ct=50")
unfolding format_single_link new_link add_attr
test_link_a = refl

test_link_b : format_single_link text_writer link_b ≡ returned (codes "</b/whatever>;obs=")
unfolding format_single_link new_link add_attr
test_link_b = refl

-- A content format whose number does not fit.
test_wide :
    format_single_link text_writer (add_attr (codes "ct") (content_format 4294967296) link_b)
    ≡ panicked
unfolding format_single_link new_link add_attr
test_wide = refl

abbrev lib : Libraries ℕ LinkAttributeValue
lib = record {
  default_message_size = 1152;
  usize_bits = 64;
  format_single_link = λ l. l.path;
  format_for_comparison = format_for_comparison two_digits;
  core_handler = λ found. 1;
}

abbrev queries : Dict Text Text
queries = (codes "ct", codes "50") ∷ []

test_listing :
    (handle_core (map (discoverable_of lib) (link_a ∷ link_b ∷ [])) queries).0 ≡ codes "/a"
unfolding handle_core discoverable_of format_for_comparison new_link add_attr
test_listing = refl
