-- ===== src/Ogg/OpusTags.antt =====
-- The OpusTags payload: the tags, their validation and `buildCommentHeader` of
-- oggwriter/oggwriter.go, and `ParseOpusTags` of oggreader/oggreader.go. A string is its bytes.
pub mod RoundTrip
pub mod Size
use format.Prelude.{
  ℕ, zero, suc, ◌+◌, ◌-◌, ◌*◌, ◌/◌, ◌%◌, ◌^◌, Bool, true, false, not, ◌&&◌, ◌||◌, List, [], ◌∷◌,
  ◌++◌, ltb, ◌==◌, if◌then◌else◌, Bytes, length, take, drop, slice, Option, none, some, Result, ok,
  err, ◌>>=◌, ◌>>◌, reject_if,
}
use format.Prelude.Words.{byte_at, equal}
use format.Prelude.Utf8.{valid_string}
use format.Prelude.Io.{le_32, put_le_32}
use format.Ogg.Errors.{Error, invalid_opus_tags}
use format.Ogg.OpusHead.{header_opus_tags}
use format.Ogg.Reader.{bad_opus_tags_signature}
use format.Ogg.Reader

pub record UserComment : Type 0 where
  pub comment : Bytes
  pub value : Bytes

pub record OpusTags : Type 0 where
  pub vendor : Bytes
  pub user_comments : List UserComment

-- `=`
abbrev pub equals : ℕ
equals = 0x3D

abbrev pub max_uint32_length : ℕ
max_uint32_length = 2 ^ 32 - 1

-- "pion"
abbrev pub default_opus_tags : OpusTags
default_opus_tags = record { vendor = 0x70 ∷ 0x69 ∷ 0x6F ∷ 0x6E ∷ []; user_comments = [] }

-- The loop of `isValidCommentName` over the bytes of a name.
abbrev pub valid_name_bytes : Bytes → Bool
valid_name_bytes [] = true
valid_name_bytes (b ∷ bs) = not (ltb b 0x20 || (ltb 0x7D b || b == equals)) && valid_name_bytes bs

abbrev pub is_valid_comment_name : Bytes → Bool
is_valid_comment_name [] = false
is_valid_comment_name (b ∷ bs) = valid_name_bytes (b ∷ bs)

abbrev pub validate_opus_tag_string : Bytes → Result Error (Unit {0})
validate_opus_tag_string value = do
  reject_if (not (valid_string value)) invalid_opus_tags
  reject_if (ltb max_uint32_length (length value)) invalid_opus_tags

-- The length of a comment. The code adds it up on int and on uint64, where the two lengths are below 2^63
-- and the value's below 2^32 when the name's is looked at.
abbrev pub user_comment_len : UserComment → ℕ
user_comment_len c = length c.comment + 1 + length c.value

abbrev pub validate_user_comment : UserComment → Result Error (Unit {0})
validate_user_comment c = do
  reject_if (not (is_valid_comment_name c.comment)) invalid_opus_tags
  validate_opus_tag_string c.value
  reject_if (ltb max_uint32_length (user_comment_len c)) invalid_opus_tags

abbrev pub validate_user_comments : List UserComment → Result Error (Unit {0})
validate_user_comments [] = ok tt
validate_user_comments (c ∷ cs) = validate_user_comment c >> validate_user_comments cs

-- `applyVendor` and `applyUserComments`
abbrev pub apply_vendor : OpusTags → Bytes → Result Error OpusTags
apply_vendor tags vendor = validate_opus_tag_string vendor >> ok (record tags { vendor = vendor })

abbrev pub apply_user_comments : OpusTags → List UserComment → Result Error OpusTags
apply_user_comments tags comments =
    validate_user_comments comments
    >> ok (record tags { user_comments = tags.user_comments ++ comments })

-- The loop of `validateOpusTagsHeaderLen`, with the length so far, on uint64.
abbrev pub comment_field_len : UserComment → ℕ
comment_field_len c = (4 + user_comment_len c % 2 ^ 64) % 2 ^ 64

abbrev pub validate_comments_len :
    (max_header_len header_len : ℕ) → List UserComment → Result Error (Unit {0})
validate_comments_len max_header_len header_len [] = ok tt
validate_comments_len max_header_len header_len (c ∷ cs) =
    reject_if (ltb ((max_header_len + 2 ^ 64 - header_len) % 2 ^ 64) (comment_field_len c))
      invalid_opus_tags
    >> validate_comments_len max_header_len ((header_len + comment_field_len c) % 2 ^ 64) cs

abbrev pub validate_opus_tags_header_len : OpusTags → ℕ → Result Error (Unit {0})
validate_opus_tags_header_len tags max_header_len = do
  let header_len = (8 + 4 + length tags.vendor + 4) % 2 ^ 64
  reject_if (ltb max_header_len header_len) invalid_opus_tags
  validate_comments_len max_header_len header_len tags.user_comments

unfoldable pub validate_opus_tags_with_max_header_len : OpusTags → ℕ → Result Error (Unit {0})
validate_opus_tags_with_max_header_len tags max_header_len = do
  validate_opus_tag_string tags.vendor
  reject_if (ltb max_uint32_length (length tags.user_comments)) invalid_opus_tags
  validate_user_comments tags.user_comments
  validate_opus_tags_header_len tags max_header_len

-- `math.MaxInt`
abbrev pub validate_opus_tags : OpusTags → Result Error (Unit {0})
validate_opus_tags tags = validate_opus_tags_with_max_header_len tags (2 ^ 63 - 1)

-- One comment of `buildCommentHeader`, with its length.
abbrev pub append_comment : UserComment → Bytes
append_comment c = put_le_32 (user_comment_len c) ++ (c.comment ++ equals ∷ c.value)

abbrev pub append_comments : List UserComment → Bytes
append_comments [] = []
append_comments (c ∷ cs) = append_comment c ++ append_comments cs

unfoldable pub build_comment_header : OpusTags → Bytes
build_comment_header tags =
    header_opus_tags
    ++ (put_le_32 (length tags.vendor)
        ++ (tags.vendor
            ++ (put_le_32 (length tags.user_comments) ++ append_comments tags.user_comments)))

-- `binary.LittleEndian.Uint32(payload[pos : pos+4])`
abbrev pub uint_32_at : Bytes → ℕ → ℕ
uint_32_at payload pos =
    let at = byte_at payload in le_32 (at pos) (at (pos + 1)) (at (pos + 2)) (at (pos + 3))

abbrev pub validate_opus_tags_header : Bytes → Result Reader.Error (Unit {0})
validate_opus_tags_header payload = do
  reject_if (ltb (length payload) 16) bad_opus_tags_signature
  reject_if (not (equal (take 8 payload) header_opus_tags)) bad_opus_tags_signature

-- The vendor, and where it ends.
abbrev pub parse_vendor_string : Bytes → Result Reader.Error (Bytes × ℕ)
parse_vendor_string payload = do
  let vendor_len = uint_32_at payload 8
  reject_if (ltb (length payload - 16) vendor_len) bad_opus_tags_signature
  let vendor_end = 12 + vendor_len
  reject_if (ltb (length payload) (vendor_end + 4)) bad_opus_tags_signature
  ok (slice payload 12 vendor_end, vendor_end)

-- `strings.SplitN(comment, "=", 2)`, where it gives two parts.
abbrev pub split_2 : Bytes → Option UserComment
split_2 [] = none
split_2 (b ∷ bs) =
    let rest = split_2 bs in
    if b == equals
    then some (record { comment = []; value = bs })
    else elim rest [ none ↦ none | some c ↦ some (record c { comment = b ∷ c.comment }) ]

abbrev pub comment_of : Bytes → Result Reader.Error UserComment
comment_of bs = elim (split_2 bs) [ none ↦ err bad_opus_tags_signature | some c ↦ ok c ]

abbrev pub parse_single_user_comment : Bytes → ℕ → Result Reader.Error (UserComment × ℕ)
parse_single_user_comment payload pos = do
  reject_if (ltb (length payload) (pos + 4)) bad_opus_tags_signature
  let comment_len = uint_32_at payload pos
  reject_if (ltb (length payload - (pos + 4)) comment_len) bad_opus_tags_signature
  let next_pos = pos + 4 + comment_len
  c ← comment_of (slice payload (pos + 4) next_pos)
  ok (c, next_pos)

-- The loop of `parseUserComments` over the comments that are left.
unfoldable pub parse_comments : ℕ → Bytes → ℕ → Result Reader.Error (List UserComment)
parse_comments zero payload pos = ok []
parse_comments (suc n) payload pos = do
  (c, next_pos) ← parse_single_user_comment payload pos
  cs ← parse_comments n payload next_pos
  ok (c ∷ cs)

abbrev pub parse_user_comments : Bytes → ℕ → Result Reader.Error (List UserComment)
parse_user_comments payload vendor_end = do
  let count = uint_32_at payload vendor_end
  reject_if (ltb ((length payload - vendor_end) / 4) count) bad_opus_tags_signature
  parse_comments count payload (vendor_end + 4)

unfoldable pub parse_opus_tags : Bytes → Result Reader.Error OpusTags
parse_opus_tags payload = do
  validate_opus_tags_header payload
  (vendor, vendor_end) ← parse_vendor_string payload
  cs ← parse_user_comments payload vendor_end
  ok (record { vendor = vendor; user_comments = cs })
