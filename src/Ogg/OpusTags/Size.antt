-- ===== src/Ogg/OpusTags/Size.antt =====
-- oggwriter/oggwriter.go: the length that `validateOpusTagsHeaderLen` adds up, and the payload's.
use format.Prelude.{
  ℕ, ◌+◌, ◌-◌, ◌%◌, ◌^◌, ◌<◌, All, ◌≤◌, ◌≡◌, ◌↔◌, arith, List, [], ◌∷◌, ◌++◌, length, ok,
  length-append,
}
use format.Prelude.Io.{put_le_32}
use format.Ogg.OpusTags.{
  UserComment, OpusTags, equals, user_comment_len, comment_field_len, validate_comments_len,
  validate_opus_tags_header_len, append_comment, append_comments, build_comment_header,
}

length-append_comment : (c : UserComment) → length (append_comment c) ≡ 4 + user_comment_len c
length-append_comment c = omega (arith, length-append c.comment (equals ∷ c.value))

comments_fit :
    (max : ℕ) (cs : List UserComment) (n : ℕ)
    → n ≤ max
    → max < 2 ^ 64
    → All (λ c. user_comment_len c < 2 ^ 32) cs
    → (validate_comments_len max n cs ≡ ok tt) ↔ (n + length (append_comments cs) ≤ max)
comments_fit max [] n h bound small = ground arith
comments_fit max (c ∷ cs) n h bound (short, small) =
    let field : comment_field_len c ≡ 4 + user_comment_len c = omega (arith, short) in
    let room : (max + 2 ^ 64 - n) % 2 ^ 64 ≡ max - n = omega (arith, h, bound) in
    rw (field, room)
      (ground (
        arith,
        comments_fit max cs ((n + (4 + user_comment_len c)) % 2 ^ 64),
        length-append_comment c,
        length-append (append_comment c) (append_comments cs),
      ))

length-build_comment_header :
    (tags : OpusTags)
    → length (build_comment_header tags)
      ≡ 16 + length tags.vendor + length (append_comments tags.user_comments)
unfolding build_comment_header
length-build_comment_header tags = omega (
  arith,
  length-append tags.vendor
      (put_le_32 (length tags.user_comments) ++ append_comments tags.user_comments),
)

-- The test of the length, which adds it up on uint64 without the payload, for any maximum of 64 bits:
-- tags whose vendor and comments are below 2^32 bytes each pass exactly where the payload is no
-- longer than the maximum, so that no sum wraps around and no difference does.
pub validate_opus_tags_header_len_iff :
    (tags : OpusTags) (max_header_len : ℕ)
    → max_header_len < 2 ^ 64
    → length tags.vendor < 2 ^ 32
    → All (λ c. user_comment_len c < 2 ^ 32) tags.user_comments
    → (validate_opus_tags_header_len tags max_header_len ≡ ok tt)
      ↔ (length (build_comment_header tags) ≤ max_header_len)
validate_opus_tags_header_len_iff tags max bound short small =
    let head : (8 + 4 + length tags.vendor + 4) % 2 ^ 64 ≡ 16 + length tags.vendor =
      omega (arith, short) in
    rw head (
      ground (
        arith,
        length-build_comment_header tags,
        comments_fit max tags.user_comments (16 + length tags.vendor),
      ))
