-- ===== src/Tests/Clis.antt =====
-- Refreshes of the CLIs at concrete inputs: cli_auth.py.
use coding_agents_databricks.Base.{
  String, ◌≡◌, refl, sym, ap, ◌∙◌, true, false, Option, none, some, [], ◌∷◌, All, ok, ok_inj,
  some_inj, any, ◌==◌, string_has_eq, ◌⊎◌,
}
use coding_agents_databricks.Base.Text.{codes, is_prefix, is_space}
use coding_agents_databricks.Base.Parse.{Text, strip, lstrip, same_text, is_line_break, is_digit}
use coding_agents_databricks.Base.Dict.{find, store}
use coding_agents_databricks.Config.{universal, readlines, put_first, concat}
use coding_agents_databricks.Json.{
  Value, Fields, obj, str, field, end, get, put, has, get_or, truthy, as_dict,
}
use coding_agents_databricks.Rotation.{Rotator, adopt}
use coding_agents_databricks.Clis.{
  File, Faults, no_faults, Home, is_ok, atomic_write_text, write_edited, read_and_edit, update_file,
  store_result, update_cli, note_outcome, refresh_each, update_all,
}
use coding_agents_databricks.Clis.Report.{names_of, is_failed, is_updated, is_skipped, IsAlone}
use coding_agents_databricks.Clis.Documents.{
  Documents, update_claude, edit_document, claude_env, finish_claude, same_value, same_fields,
  has_otel, is_otel_key, text_starts_with, text_ends_with, rewrite_each, set_static,
}
use coding_agents_databricks.Clis.Opencode.{
  opencode_provider_ids, update_opencode, rotate_credential, set_key, is_opencode_api_credential,
  if_changed,
}
use coding_agents_databricks.Clis.Opencode.Credentials.{Carries, update_opencode_rotates}
use coding_agents_databricks.Clis.Hermes.Owned.{rewrite_owned, update_hermes-rewrite_owned}
use coding_agents_databricks.Clis.Hermes.{
  update_hermes, lines_with_ends, indent_of, spaces, drop_deeper, close_blocks, set_trusted,
  is_trusted, before_comment, lstrip_of, rstrip_of, base_url_of, is_proxy_port, is_root, is_proxy,
  is_proxy_url, ends_with_newline, api_key_line, count_trusted, visit_open, skips_line, close,
  visit_line, visit_lines,
}
use coding_agents_databricks.Clis.Targets.{updaters, update_cli_tokens}
use coding_agents_databricks.Clis.Repeatable.{AreReadable, IsClean}
use coding_agents_databricks.Clis.Refresh.{
  cli_names, update_cli_tokens_again, update_cli_tokens-IsAlone, revoked_after_refresh, NotRevoking,
}
use coding_agents_databricks.Clis.Dotenv.{
  line_end, has_key, key_line, replace_line, replace_lines, if_different, replace_dotenv_key,
  update_codex, update_gemini,
}
use coding_agents_databricks.Base.Url.{
  partition, before_rest, rpartition, lower_text, is_scheme_char, is_scheme, drop_controls,
  drop_unsafe, take_scheme, split_scheme, split_netloc, after_scheme, or_empty, split_path,
  urlsplit, no_userinfo, hostinfo, lower_host, hostname, number, read_port, port,
}

abbrev settings : String → Value
settings token = obj (field "env" (obj (field "ANTHROPIC_AUTH_TOKEN" (str token) end)) end)

-- Two documents: the empty text is read as the old one.
abbrev loads : Text → Option Value
loads [] = some (settings "old")
loads (c ∷ t) = some (settings "new")

abbrev documents : Documents
documents = record { loads = loads; dumps = λ v. codes "{}" }

abbrev loose : Text → File
loose t = record { content = t; is_private = false }

abbrev home : Home
home = ("claude", loose []) ∷ ("codex", loose (codes "A=1\nOPENAI_API_KEY=old\nB=2")) ∷ []

abbrev all_work : String → Faults
all_work name = no_faults

refreshed : update_cli_tokens documents true all_work "new" home ≡ (
  record {
    updated = "claude" ∷ "codex" ∷ [];
    skipped = "pi" ∷ "opencode" ∷ "opencode_provider" ∷ "gemini" ∷ "hermes" ∷ [];
    failed = [];
  },
  ("claude", record { content = codes "{}"; is_private = true })
      ∷ ("codex", record { content = codes "A=1\nOPENAI_API_KEY=new\nB=2"; is_private = true })
      ∷ [],
)
unfolding update_cli_tokens update_all refresh_each update_cli store_result update_file
    read_and_edit write_edited atomic_write_text note_outcome edit_document update_claude claude_env
    set_static rewrite_each finish_claude same_value same_fields has_otel is_otel_key
    text_starts_with text_ends_with update_codex update_gemini replace_dotenv_key replace_lines
    replace_line has_key key_line line_end if_different same_text is_prefix find store universal
    readlines put_first concat get put has get_or truthy as_dict updaters
refreshed = refl

abbrev hermes : Text
hermes =
    codes
      "providers:\n  - base_url: https://example.com\n    api_key: other\n  local:\n    base_url: http://127.0.0.1:4000/ # proxy\n    api_key: old\n"

abbrev hermes_new : Text
hermes_new =
    codes
      "providers:\n  - base_url: https://example.com\n    api_key: other\n  local:\n    base_url: http://127.0.0.1:4000/ # proxy\n    api_key: new\n"

hermes_refreshed : update_hermes (codes "new") hermes ≡ ok (some hermes_new)
unfolding lines_with_ends indent_of spaces drop_deeper close_blocks set_trusted is_trusted
    before_comment lstrip_of rstrip_of base_url_of is_proxy_port is_root is_proxy is_proxy_url
    ends_with_newline api_key_line count_trusted visit_open skips_line close visit_line visit_lines
    update_hermes partition before_rest rpartition lower_text is_scheme_char is_scheme drop_controls
    drop_unsafe take_scheme split_scheme split_netloc after_scheme or_empty split_path urlsplit
    no_userinfo hostinfo lower_host hostname number read_port port strip lstrip same_text
    is_line_break is_digit is_prefix is_space universal put_first concat if_different
hermes_refreshed = refl

nothing_failed : (update_cli_tokens documents true all_work "new" home).0.failed ≡ []
nothing_failed = ap (λ r. r.0.failed) refreshed

settings_change : update_claude "new" (settings "old") ≡ ok (some (settings "new"))
unfolding update_claude claude_env set_static rewrite_each finish_claude same_value same_fields
    has_otel is_otel_key text_starts_with text_ends_with get put has get_or truthy as_dict is_prefix
settings_change = refl

home-AreReadable : AreReadable documents "new" home
unfolding find universal
home-AreReadable = (
  λ v w e c.
      ap some (some_inj (ok_inj (sym settings_change ∙ ap (update_claude "new") (some_inj e) ∙ c))),
  tt,
  tt,
  tt,
  λ f e. absurd cc,
)

new-IsClean : IsClean "new"
unfolding is_line_break
new-IsClean = ((refl, refl), ((refl, refl), ((refl, refl), tt)))

update_cli_tokens_again_example :
    let after = (update_cli_tokens documents true all_work "new" home).1 in
    ((update_cli_tokens documents true all_work "new" after).0
      ≡ record { updated = []; skipped = cli_names; failed = [] })
    × ((j : String)
        → find j (update_cli_tokens documents true all_work "new" after).1 ≡ find j after)
update_cli_tokens_again_example =
    update_cli_tokens_again documents all_work all_work "new" home new-IsClean home-AreReadable
      (λ name. (refl, refl)) nothing_failed

abbrev rotator : Rotator
rotator = record {
  current_token = some "old";
  current_token_id = some "i";
  last_rotation_time = none;
}

revoked_after_refresh_example :
    All NotRevoking
      (adopt "new" "j" 0 true
        (is_ok (update_cli_tokens documents true all_work "new" home).0)
        rotator).2
    ⊎ ((true ≡ true)
        × (true ≡ true)
        × (names_of all_work is_failed (updaters documents "new") home ≡ []))
revoked_after_refresh_example =
    revoked_after_refresh documents true all_work "new" "j" 0 true home rotator

update_cli_tokens-IsAlone_example :
    ((update_cli_tokens documents true all_work "new" home).0 ≡ record {
      updated = names_of all_work is_updated (updaters documents "new") home;
      skipped = names_of all_work is_skipped (updaters documents "new") home;
      failed = names_of all_work is_failed (updaters documents "new") home;
    })
    × All
        (IsAlone all_work home (update_cli_tokens documents true all_work "new" home).1)
        (updaters documents "new")
update_cli_tokens-IsAlone_example = update_cli_tokens-IsAlone documents all_work "new" home

abbrev credential : String → Value
credential key = obj (field "type" (str "api") (field "key" (str key) end))

abbrev auth : String → Fields
auth key = field "databricks" (credential key) (field "other" (credential "mine") end)

auth_change : update_opencode "new" (obj (auth "old")) ≡ ok (some (obj (auth "new")))
unfolding update_opencode rotate_credential set_key is_opencode_api_credential if_changed
    rewrite_each get put has get_or
auth_change = refl

update_opencode_rotates_example :
    (new : Fields) × (obj (auth "new") ≡ obj new)
    × All (Carries "new" new) opencode_provider_ids
    × ((j : String)
        → any (λ k. k == j) opencode_provider_ids ≡ false
        → get j new ≡ get j (auth "old"))
update_opencode_rotates_example =
    update_opencode_rotates "new" (auth "old") (obj (auth "new")) auth_change

update_hermes-rewrite_owned_example :
    hermes_new ≡ concat (rewrite_owned (codes "new") [] (lines_with_ends (universal false hermes)))
update_hermes-rewrite_owned_example =
    update_hermes-rewrite_owned (codes "new") hermes hermes_new hermes_refreshed
