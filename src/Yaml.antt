-- ===== src/Yaml.antt =====
-- src/qofconfig.c: the configuration file. The calls of `yaml_parser_parse` give a list of results, and
-- what the code takes from a text by `sscanf` and `inet_pton` is a parameter.
pub mod Value
pub mod Entry
pub mod Features
pub mod Document
pub mod Ends
pub mod Loops
pub mod Total
pub mod Interfaces
