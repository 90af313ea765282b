-- ===== src/Metrics/Tags.antt =====
-- cmd/metrics/client.go: `parseTags` undoes what the callers format.
use consensus_proxy.Base.{
  false, List, [], ◌∷◌, ◌++◌, All, ◌≡◌, refl, ap, ◌∙◌, arith, ◌==◌, some, map,
}
use consensus_proxy.Http.{Bytes, bytes_of}
use consensus_proxy.Balancer.{Tag}
use consensus_proxy.Metrics.{value_text, format_tag, split_tag, add_label, parse_tags}

-- A key without a colon.
abbrev pub IsKey : Tag → Type 0
IsKey (key, value) = All (λ c. (c == b':') ≡ false) (bytes_of key)

split_tag-append :
    (key value : Bytes)
    → All (λ c. (c == b':') ≡ false) key
    → split_tag (key ++ b':' ∷ value) ≡ some (key, value)
unfolding split_tag
split_tag-append [] value h = refl
split_tag-append (c ∷ key) value h = ground (arith, split_tag-append key value h.1)

pub split_tag-format_tag :
    (tag : Tag) → IsKey tag → split_tag (format_tag tag) ≡ some (bytes_of tag.0, value_text tag.1)
unfolding format_tag
split_tag-format_tag (key, value) h = split_tag-append (bytes_of key) (value_text value) h

-- The tags of a call, each with a key without a colon, are parsed to their keys and their values as
-- they were formatted, whatever the values hold, in order.
pub parse_tags-format_tag :
    (tags : List Tag)
    → All IsKey tags
    → parse_tags (map format_tag tags)
      ≡ (map (λ tag. bytes_of tag.0) tags, map (λ tag. value_text tag.1) tags)
unfolding parse_tags
parse_tags-format_tag [] h = refl
parse_tags-format_tag (tag ∷ tags) h =
    ap (λ o. add_label o (parse_tags (map format_tag tags))) (split_tag-format_tag tag h.0)
    ∙ ap (λ labels. add_label (some (bytes_of tag.0, value_text tag.1)) labels)
        (parse_tags-format_tag tags h.1)
