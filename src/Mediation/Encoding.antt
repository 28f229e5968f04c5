-- ===== src/Mediation/Encoding.antt =====
-- `json.Marshal` of a `commandResponse`.
use shipmunk_runner.Prelude.{
  ℕ, ◌+◌, ◌-◌, ◌/◌, ◌%◌, ltb, ◌==◌, Bytes, codes, [], ◌∷◌, ◌++◌, ◌||◌, pos, format_int,
  if◌then◌else◌,
}
use shipmunk_runner.Mediation.Requests.{CommandResponse}

abbrev hex_digit : ℕ → ℕ
hex_digit n = if ltb n 10 then b'0' + n else (b'a' + n) - 10

abbrev backslash : ℕ
backslash = 92

abbrev quote : ℕ
quote = 34

-- One byte of valid UTF-8 in a JSON string; `<`, `>` and `&` are escaped as HTML wants it.
escape : ℕ → Bytes
escape b =
    if b == quote || b == backslash
    then backslash ∷ b ∷ []
    else if b == 8
    then backslash ∷ b'b' ∷ []
    else if b == 12
    then backslash ∷ b'f' ∷ []
    else if b == 10
    then backslash ∷ b'n' ∷ []
    else if b == 13
    then backslash ∷ b'r' ∷ []
    else if b == 9
    then backslash ∷ b't' ∷ []
    else if ltb b 32 || b == b'<' || b == b'>' || b == b'&'
    then backslash ∷ b'u' ∷ b'0' ∷ b'0' ∷ hex_digit (b / 16) ∷ hex_digit (b % 16) ∷ []
    else b ∷ []

-- How much of U+2028 or U+2029 (E2 80 A8, E2 80 A9) has been read and not been written.
pub data Seen : Type 0 where
  nothing one two : Seen

flush : Seen → Bytes
flush nothing = []
flush one = 0xE2 ∷ []
flush two = 0xE2 ∷ 0x80 ∷ []

after : Seen → ℕ → Seen
after nothing b = if b == 0xE2 then one else nothing
after one b = if b == 0x80 then two else if b == 0xE2 then one else nothing
after two b = if b == 0xE2 then one else nothing

emit : Seen → ℕ → Bytes
unfolding flush escape
emit nothing b = if b == 0xE2 then [] else escape b
emit one b = if b == 0x80 then [] else if b == 0xE2 then flush one else flush one ++ escape b
emit two b =
    if b == 0xA8
    then codes "\\u2028"
    else if b == 0xA9
    then codes "\\u2029"
    else if b == 0xE2
    then flush two
    else flush two ++ escape b

escape_from : Seen → Bytes → Bytes
unfolding flush after emit
escape_from h [] = flush h
escape_from h (b ∷ s) = emit h b ++ escape_from (after h b) s

unfoldable pub encode_string : Bytes → Bytes
unfolding escape_from
encode_string s = quote ∷ (escape_from nothing s ++ (quote ∷ []))

unfoldable pub key : Bytes → Bytes
key name = quote ∷ (name ++ (quote ∷ b':' ∷ []))

-- The object of the five encoded fields.
unfoldable pub assembled : Bytes → Bytes → Bytes → Bytes → Bytes → Bytes
unfolding key
assembled fence id stdout stderr exit_code =
    b'{'
    ∷ (key (codes "fence")
        ++ (fence
            ++ (b','
                ∷ (key (codes "id")
                    ++ (id
                        ++ (b','
                            ∷ (key (codes "stdout")
                                ++ (stdout
                                    ++ (b','
                                        ∷ (key (codes "stderr")
                                            ++ (stderr
                                                ++ (b','
                                                    ∷ (key (codes "exit_code")
                                                        ++ (exit_code ++ (b'}' ∷ [])))))))))))))))

unfoldable pub encode_response : CommandResponse → Bytes
unfolding assembled encode_string format_int
encode_response r =
    assembled (format_int (pos r.fence)) (format_int (pos r.id)) (encode_string r.stdout)
      (encode_string r.stderr) (format_int r.exit_code)
