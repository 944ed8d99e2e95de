-- ===== src/Knowledge/Examples.antt =====
-- The results of a batch at four items with a repeat, and of chunks at small documents.
use fuko_pr.Prelude.{
  arith, All, text_length, ◌≤◌, String, ◌≡◌, refl, some, none, List, [], ◌∷◌, ◌++◌, map, splitlines,
}
use fuko_pr.Knowledge.Chunks.{split_paragraphs}
use fuko_pr.Knowledge.Content.{content, squeeze}
use fuko_pr.Knowledge.Markdown.{chunk_markdown}
use fuko_pr.Knowledge.MarkdownContent.{texts, chunk_markdown-content}
use fuko_pr.Knowledge.MarkdownBounds.{chunk_markdown-AllShort}
use fuko_pr.Knowledge.Dedup.{IngestItem, Key, key, partition}
use fuko_pr.Knowledge.Batches.{
  IsSplit, fitting, drop, new_items, partition-IsSplit, partition-resent,
}

abbrev an_item : String → IngestItem
an_item text = record {
  text = text;
  source = "docs";
  source_url = none;
  file_globs = [];
  topic = none;
  origin_user = none;
  expires_at = none;
}

abbrev some_items : List IngestItem
some_items = an_item "a" ∷ an_item "b" ∷ an_item "a" ∷ an_item "c" ∷ []

abbrev stored : List Key
stored = ("c", "docs") ∷ []

partition-IsSplit_example :
    IsSplit some_items stored (some 1) (partition some_items stored (some 1))
partition-IsSplit_example = partition-IsSplit some_items stored (some 1)

partition-resent_example :
    (partition some_items
      (map key (partition some_items stored (some 1)).to_embed ++ stored)
      none).to_embed
    ≡ fitting none 0 (drop 1 (new_items stored some_items))
partition-resent_example = partition-resent some_items stored 1 none

-- Two paragraphs that fit together, a separator with a blank in it, and a paragraph that is cut.
three_paragraphs : split_paragraphs "ab\n\ncd\n \n  efghijk" 6 ≡ "ab\n\ncd" ∷ "  efgh" ∷ "ijk" ∷ []
unfolding split_paragraphs
three_paragraphs = refl

abbrev guide : String
guide = "intro\r\n# One \nfirst line\n\n####### seven\n##\tTwo\n"

guide_lines :
    splitlines guide ≡ "intro" ∷ "# One " ∷ "first line" ∷ "" ∷ "####### seven" ∷ "##\tTwo" ∷ []
unfolding splitlines
guide_lines = refl

guide_chunks :
    chunk_markdown guide 14
    ≡ ("intro", "")
      ∷ ("# One \nfirst l", "One")
      ∷ ("ine", "One")
      ∷ ("####### seven", "One")
      ∷ ("##\tTwo", "Two")
      ∷ []
unfolding chunk_markdown
guide_chunks = refl

chunk_markdown-content_example : content (texts (chunk_markdown guide 14)) ≡ squeeze guide
chunk_markdown-content_example = chunk_markdown-content 14 (ground arith) guide

chunk_markdown-AllShort_example : All (λ s. text_length s ≤ 14) (texts (chunk_markdown guide 14))
chunk_markdown-AllShort_example = chunk_markdown-AllShort 14 (ground arith) guide
