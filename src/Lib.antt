-- ===== src/Lib.antt =====
-- wolfCLU, the command line utility of wolfSSL: the parts that decide what a command does, and the
-- server side of its OCSP responder. The program is one process. `main` picks a command by its name;
-- the command reads its options with `wolfCLU_GetOpt`, checks them, and calls wolfSSL. The responder
-- reads requests from sockets over HTTP or SCGI, hands them to wolfSSL and sends back what that wrote.
--
-- Base holds the names that all modules share: numbers, tests, lists, integers and results. Text has the
-- C strings: a string is the list of its bytes in front of the NUL, and `strcmp`, `strncmp`, `strtok_r`
-- and `atoi` are written out as far as the program uses them (`atoi` as glibc has it, where a value does
-- not fit an `int`). Text/Laws and Text/Numbers prove what the other modules use of them.
--
-- The files and the code that they model:
--
-- Args: src/tools/clu_funcs.c, `wolfCLU_checkForArg` (check_for_arg) and `wolfCLU_GetOpt` (get_opt), and
--   the loop over the options that every command has (option_loop), with its `switch` as an argument.
-- Decimal: src/tools/clu_funcs.c, `wolfCLU_parseDecimalBounded`.
-- Algo: src/tools/clu_funcs.c, `wolfCLU_parseAlgo` (parse_algo). Algo/Select: `wolfCLU_getAlgo` (get_algo),
--   `wolfCLU_oldAlgo` and `wolfCLU_CipherTypeFromAlgo`. The build's macros are a record, Features.
-- Main: src/clu_main.c, the table of modes, `getMode` (get_mode), the choice of the mode (choose_mode) and
--   the dispatch (command, main). The commands are a parameter.
-- Input: src/tools/clu_funcs.c, `wolfCLU_getline`, `wolfCLU_GetPassword`, `wolfCLU_GetStdinPassword`; the
--   allocator is a parameter, and a write past the end of a buffer would be an outcome of its own.
-- Forms: src/tools/clu_funcs.c, `wolfCLU_checkInform` and `wolfCLU_checkOutform`.
-- Hex: src/tools/clu_hex_to_bin.c, with `Base16_Decode` of wolfSSL as a parameter.
-- Crypto: src/crypto/clu_evp_crypto.c, `wolfCLU_evp_crypto`, as encrypt_file and decrypt_file; the cipher of
--   wolfSSL is a record of operations, and what is relied on of it stands in Crypto/Stream.
-- Crypto/Options and Crypto/Setup: src/crypto/clu_crypto_setup.c, `wolfCLU_setup` (setup_command, and
--   crypt_setup behind the choice of the algorithm), which settles with what `wolfCLU_evp_crypto`, or
--   the legacy cipher, is called. Crypto/Setup/Given has what the options give, apart from the code.
-- Hash: src/tools/clu_funcs.c, `wolfCLU_streamHashBio` (stream_hash_bio), and src/hash/clu_hash.c,
--   `wolfCLU_hash`; the hash functions of wolfSSL are a record of operations, and what is relied on of them
--   stands in Hash/Digest. Hash/Setup: src/hash/clu_hash_setup.c and src/hash/clu_alg_hash.c.
-- Names: src/tools/clu_funcs.c, `wolfCLU_AddNameEntry` and `wolfCLU_ParseX509NameString`; Names/Asked:
--   `wolfCLU_CreateX509Name`. The names of wolfSSL are a record of operations, NameApi.
-- Tls: src/client/clu_client_setup.c, `wolfCLU_Client` (client_setup), and src/server/clu_server_setup.c,
--   `wolfCLU_Server` (server_setup): the arguments for `client_test` and `server_test`. Tls/Room has the
--   array that both fill.
-- Sign: src/sign-verify/clu_sign_verify_setup.c, `wolfCLU_sign_verify_setup`; whether a file exists is a
--   parameter.
-- Crypto/Legacy: src/crypto/clu_encrypt.c and src/crypto/clu_decrypt.c, `wolfCLU_encrypt` (encrypt) and
--   `wolfCLU_decrypt` (decrypt), and `wolfCLU_genKey_PWDBASED` of src/genkey/clu_genkey.c (mark_salt); the
--   cipher is a record of operations, and what is relied on of it stands in Crypto/Legacy/Padded.
-- Verify: src/sign-verify/clu_x509_verify.c, `wolfCLU_x509Verify` (x509_verify); the certificates and the
--   store of wolfSSL are a record of operations, VerifyApi. The comparison of pointers is that of positions
--   in the argument vector.
-- Base64: src/tools/clu_base64.c, `wolfCLU_Base64Setup` (base64_setup); the files and the conversions of
--   wolfSSL are records, Files and Base64Api.
-- Config: src/x509/clu_config.c. `wolfCLU_parseAddExt`, `wolfCLU_setInlineAltNames`, `wolfCLU_setAltNames`
--   and `wolfCLU_addAltName` stand in Config, `wolfCLU_parseBasicConstraint` in Config/Constraint,
--   `wolfCLU_parseKeyUsage` in Config/Usage, `CheckDisName` and `wolfCLU_setDisNames` in Config/Names, and
--   `wolfCLU_setExtensions` and `wolfCLU_readConfig` in Config/Extensions. The loaded configuration, the
--   certificates and the extensions of wolfSSL are records of operations, Conf, CertApi and ExtensionApi.
-- Net/Socket: `wolfCLU_Recv` and `wolfCLU_SendAll` of src/tools/clu_http.c, `readExactly` of
--   src/tools/clu_scgi.c. The peer is a list of what each call of `recv` or `send` meets.
-- Net/Http: src/tools/clu_http.c, `wolfCLU_HttpServerRecv` and `wolfCLU_HttpServerParseRequest`.
-- Net/Scgi: src/tools/clu_scgi.c, `wolfCLU_ScgiReadRequest` and what it calls.
-- Net/Reply: the functions of both files that send.
-- Ocsp/Options and Ocsp/Setup: src/ocsp/clu_ocsp.c, the options and `wolfCLU_OcspSetup`.
-- Ocsp/Index: `parseIndexFile` (parse_index_file) and the statuses that `ocspResponder` takes from its list
--   (populate), with `mktime` as a parameter.
-- Ocsp/Transport: `transportReadRequest`, `transportSendResponse` and `transportSendError`.
-- Ocsp/Responder: the main loop of `ocspResponder`. The responder of wolfSSL is a parameter, a state with
--   the operation that writes a response; so is the operation that writes an error response.
-- Rand: src/tools/clu_rand.c. Rand/Output: the loop that fills the buffer, with the random generator as a
--   parameter, and the hexadecimal text.
-- Tests: the theorems at concrete inputs.
--
-- State and errors: a local or a struct is a record, a pointer into a buffer is the bytes from there on, and
-- an error code is a value. A loop whose rounds are not over a list has a fuel: the bytes that are missing
-- for the loops that read, the length of the headers for those of SCGI, one more than the entries of the
-- table for the options, the size for the random bytes, and one more than the number for the digits of a
-- number. The legacy encryption has the length of the padded file, and its padding the size of a block; the
-- decryption has the length of the file, and the words of `strtok` that of the text. The lines of a file have
-- the file's length, and the input of a cipher, of a hash function, a name, and that of `wolfCLU_getline` and
-- of `wolfCLU_readFilename` one more than what is left of it. Each round of these loops takes one of what its
-- fuel counts, at least. For the options, the readers, the ciphers and the hash functions a fuel that ran out
-- is none or an answer of its own; a loop that makes a list, a text or a number ends with what it has. A file
-- of more bytes than an int counts is an outcome of its own for the legacy cipher and for base64. The count of
-- the requests of the responder does not wrap: it is that of the code below 2^31. `send` past the end of the
-- list of what it meets fails, and `recv` finds the end of the connection.
--
-- Not modelled: wolfSSL itself, the terminal and the log; the other commands; the client of the OCSP command and the
-- certificates and keys that the responder loads.
pub mod Base
pub mod Text
pub mod Args
pub mod Decimal
pub mod Hex
pub mod Forms
pub mod Features
pub mod Algo
pub mod Net
pub mod Ocsp
pub mod Main
pub mod Input
pub mod Crypto
pub mod Hash
pub mod Names
pub mod Tls
pub mod Sign
pub mod Verify
pub mod Base64
pub mod Config
pub mod Rand
pub mod Tests
